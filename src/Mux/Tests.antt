-- ===== src/Mux/Tests.antt =====
-- The multiplexer of include/wawo/net/peer/mux_cargo.hpp on concrete values.
use wawo.Prelude.{
  ℕ, ◌+◌, ◌-◌, ◌<◌, ◌≡◌, refl, true, false, some, [], ◌∷◌, ◌++◌, arith, length, take,
  length-replicate, Bool,
}
use wawo.RingBuffer.{BytesRingbuffer, IsValid, contents, count, malloc}
use wawo.RingBuffer.Contents.{fresh, count-eq-length}
use wawo.Mux.{
  MuxCode, ok, e_socket_send_block, ss_established, MuxStream, Socket, encode, read_fields, t_data,
  mux_stream_wnd_size,
}
use wawo.Mux.Stream.{stream}
use wawo.Mux.Stream.Sound.{IsSound, Closes, close_lem}
use wawo.Mux.Message.{read_fields-encode}
use wawo.Mux.Flush.{determine_buffer}
use wawo.Mux.Flush.Determine.{first_flush_cuts}
use wawo.Mux.Flush.Whole.{Ready, Flushes, flush_lem}
use wawo.Mux.Cargo.{MuxCargo, socket_attached, socket_closed, pe_close}
use wawo.Mux.Cargo.Arrive.{packet_arrive}
use wawo.Mux.Cargo.Tick.{flush_outps, on_event, e_close, drain}
use wawo.Mux.Cargo.Disconnected.{closed_events, on_event_close_lem}
use wawo.Mux.Cargo.Stuck.{IsStuck, closing, close_never_ends}

-- Sockets that take every message, and none.
abbrev takes_all : ℕ → MuxCode
takes_all n = ok

abbrev takes_none : ℕ → MuxCode
takes_none n = e_socket_send_block

abbrev socket : Bool → Socket
socket up = record { tries = 0; sent = []; connected = up }

-- A ring that holds `n` bytes.
abbrev held : ℕ → ℕ → BytesRingbuffer
held cap n = record { m_capacity = cap + 1; m_begin = 0; m_end = n; m_buffer = malloc (cap + 1) }

held-IsValid : IsValid (held 4096 3000)
held-IsValid = record {
  storage = length-replicate {A = ℕ} 4097 b'i';
  room = omega arith;
  small = omega arith;
  begin_in = omega arith;
  end_in = omega arith;
}

-- An opened stream with 3000 bytes to send.
abbrev full_stream : ℕ → MuxStream
full_stream wnd = record stream {
  id = 5;
  ctx = some 77;
  state = ss_established;
  rb = fresh mux_stream_wnd_size;
  wb = held 4096 3000;
  wb_wnd = wnd;
}

full_stream-Ready : Ready (full_stream 1000)
full_stream-Ready = record {
  valid = held-IsValid;
  id_in = omega arith;
  wnd_in = omega arith;
  incre_in = omega arith;
}

full_stream-IsSound : IsSound (full_stream 1000)
full_stream-IsSound = record { id_given = refl; flags = refl }

read_fields-encode_example :
    read_fields (encode 5 t_data (1 ∷ 2 ∷ [])) ≡ some (5, t_data, 1 ∷ 2 ∷ [])
read_fields-encode_example = read_fields-encode 5 t_data (1 ∷ 2 ∷ []) (omega arith) (omega arith)

flush_lem_example :
    Flushes takes_all 98304 (omega arith) (omega arith) (full_stream 1000) (socket true)
flush_lem_example =
    flush_lem takes_all 98304 (omega arith) (omega arith) (full_stream 1000) (socket true)
      full_stream-Ready

close_lem_example : (s' : MuxStream) × Closes (full_stream 1000) s'
close_lem_example = close_lem (full_stream 1000) full_stream-IsSound

many_bytes : 2048 < length (contents (held 4096 3000))
unfolding count
many_bytes = omega (arith, count-eq-length (held 4096 3000) held-IsValid)

first_flush_cuts_example :
    (s' : MuxStream) × (determine_buffer 3072 (full_stream 1000) ≡ some s')
    × (contents s'.wb ≡ take (3072 - 1024) (contents (full_stream 1000).wb))
first_flush_cuts_example =
    first_flush_cuts 3072 (full_stream 1000) held-IsValid (omega arith) (omega arith) refl
      many_bytes

-- A peer with that stream, of a socket that is gone.
abbrev peer : MuxCargo
peer = record {
  m_stream_map = (5, full_stream 1000) ∷ [];
  m_mux_state = socket_attached;
  m_outps = [];
  m_so = some (socket false);
  events = [];
}

nothing_waits :
    flush_outps takes_none 98304 [] (some (socket false)) ≡ some (true, [], some (socket false))
unfolding flush_outps
nothing_waits = refl

on_event_close_lem_example :
    (c' : MuxCargo) × (on_event takes_none 98304 2 e_close peer ≡ some (true, c'))
    × (c'.m_stream_map ≡ [])
    × (c'.m_mux_state ≡ socket_closed)
    × (c'.events ≡ ([] ++ closed_events peer.m_stream_map) ++ pe_close ∷ [])
on_event_close_lem_example =
    on_event_close_lem takes_none 98304 0 peer (socket false) (socket false)
      (full_stream-IsSound, tt) refl nothing_waits refl

-- The stream without a window, once its SYN is sent.
abbrev stuck : MuxStream
stuck = record (full_stream 0) {
  flag = record (stream.flag) {
    buffer_determined = true;
    plan_fin = true;
    write_shutdown_called = true;
  };
}

stuck-IsStuck : IsStuck stuck
unfolding count
stuck-IsStuck = record {
  up = refl;
  told = refl;
  open_to_write = refl;
  waits = refl;
  determined = refl;
  syn_sent = refl;
  no_window = refl;
}

close_never_ends_example :
    (drain takes_all 98304 1000 (closing ((5, stuck) ∷ []) (socket true) [])
      ≡ some (false, closing ((5, stuck) ∷ []) (socket true) []))
    × (packet_arrive takes_all
          (encode 5 4 (0 ∷ 0 ∷ 4 ∷ 0 ∷ []))
          (closing ((5, stuck) ∷ []) (socket true) [])
        ≡ some (closing ((5, stuck) ∷ []) (socket true) []))
close_never_ends_example =
    close_never_ends takes_all 98304 5 stuck [] (socket true) [] 1000
      (encode 5 4 (0 ∷ 0 ∷ 4 ∷ 0 ∷ [])) (stuck-IsStuck, tt) refl
