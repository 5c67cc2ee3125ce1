-- ===== src/Mux/Flow/Tests.antt =====
-- A run of both ends of a stream of include/wawo/net/peer/mux_cargo.hpp.
use wawo.Prelude.{
  ℕ, ◌+◌, ◌-◌, ◌≤◌, ◌≡◌, refl, ap, true, some, List, [], ◌∷◌, ◌++◌, arith, inr, length, drop,
  length-take, ◌>>=◌,
}
use wawo.Prelude.Memory.{blit}
use wawo.RingBuffer.{
  contents, left_capacity, malloc, count, write, read, store, skip, copied, peek, capacity,
  is_empty, reset,
}
use wawo.RingBuffer.Contents.{fresh}
use wawo.Mux.{MuxCode, ok, ss_established, MuxStream, Socket, encode, t_data, mux_stream_wnd_size}
use wawo.Mux.Stream
use wawo.Mux.Stream.{stream}
use wawo.Mux.Flush.{
  flush, flush_open, flush_bytes, determine_buffer, flush_data, send_data, unblock,
}
use wawo.Mux.Message.{read_fields-encode}
use wawo.Mux.Cargo.Arrive.{data_arrive}
use wawo.Mux.Flow.{System, writes, flushes, turns, act, Fresh, Reachable, start, acts, Balanced}
use wawo.Mux.Flow.Actions.{OnSome}
use wawo.Mux.Flow.History.{History, record_act, Conserved, Fitting, Recorded}
use wawo.Mux.Flow.History
use wawo.Mux.Flow.InOrder.{Recorded-Conserved}
use wawo.Mux.Flow.Window.{Reachable-Balanced, data_never_over}

abbrev takes_all : ℕ → MuxCode
takes_all n = ok

abbrev socket : List (List ℕ) → ℕ → Socket
socket sent tries = record { tries = tries; sent = sent; connected = true }

abbrev an_end : MuxStream
an_end = record stream {
  id = 5;
  ctx = some 77;
  state = ss_established;
  rb = fresh mux_stream_wnd_size;
  wb = fresh mux_stream_wnd_size;
  wb_wnd = mux_stream_wnd_size;
}

an_end-Fresh : Fresh an_end
an_end-Fresh = record {
  id_in = omega arith;
  rb_fresh = refl;
  wb_fresh = refl;
  incre_none = refl;
  wnd_whole = refl;
}

abbrev both : System
both = record { a = an_end; to_b = socket [] 0; b = an_end; to_a = socket [] 0 }

-- Three bytes are written.
abbrev with_bytes : MuxStream
with_bytes = record an_end {
  wb = record {
    m_capacity = mux_stream_wnd_size + 1;
    m_begin = 0;
    m_end = 3;
    m_buffer = blit (malloc (mux_stream_wnd_size + 1)) 0 (7 ∷ 8 ∷ 9 ∷ []);
  };
}

wrote : act 1000000 (writes (7 ∷ 8 ∷ 9 ∷ [])) both ≡ some (record both { a = with_bytes })
unfolding act Stream.write write store left_capacity count capacity
wrote = refl

-- They are sent: the ring is empty again, and the window smaller.
abbrev flushed : MuxStream
flushed = record an_end {
  flag = record (stream.flag) { buffer_determined = true };
  wb = record {
    m_capacity = mux_stream_wnd_size + 1;
    m_begin = 0;
    m_end = 0;
    m_buffer = blit (malloc (mux_stream_wnd_size + 1)) 0 (7 ∷ 8 ∷ 9 ∷ []);
  };
  wb_wnd = mux_stream_wnd_size - 3;
}

abbrev message : List ℕ
message = encode 5 t_data (7 ∷ 8 ∷ 9 ∷ [])

abbrev on_the_way : System
on_the_way = record both { a = flushed; to_b = socket (message ∷ []) 1 }

sent : act 1000000 (flushes takes_all) (record both { a = with_bytes }) ≡ some on_the_way
unfolding act flush flush_open flush_bytes determine_buffer flush_data send_data unblock peek read
    copied skip is_empty reset count capacity blit
sent = refl

start-Reachable : Reachable 1000000 both
start-Reachable = start both an_end-Fresh an_end-Fresh refl refl

on_the_way-Reachable : Reachable 1000000 on_the_way
on_the_way-Reachable =
    acts (flushes takes_all) (record both { a = with_bytes }) on_the_way
      (acts (writes (7 ∷ 8 ∷ 9 ∷ [])) both (record both { a = with_bytes }) start-Reachable wrote)
      sent

-- The other end first.
abbrev arriving : System
arriving = record { a = an_end; to_b = socket [] 0; b = flushed; to_a = socket (message ∷ []) 1 }

turn_round : act 1000000 turns on_the_way ≡ some arriving
unfolding act
turn_round = refl

arriving-Reachable : Reachable 1000000 arriving
arriving-Reachable = acts turns on_the_way arriving on_the_way-Reachable turn_round

Reachable-Balanced_example : Balanced on_the_way
Reachable-Balanced_example =
    Reachable-Balanced 1000000 (omega arith) (omega arith) on_the_way on_the_way-Reachable

data_never_over_example :
    (length {A = ℕ} (7 ∷ 8 ∷ 9 ∷ []) ≤ left_capacity an_end.rb)
    × OnSome
        (λ s. contents s.rb ≡ contents an_end.rb ++ (7 ∷ 8 ∷ 9 ∷ []))
        (data_arrive (7 ∷ 8 ∷ 9 ∷ []) an_end)
data_never_over_example =
    data_never_over 1000000 (omega arith) (omega arith) arriving message [] 5 (7 ∷ 8 ∷ 9 ∷ [])
      arriving-Reachable refl
      (read_fields-encode 5 t_data (7 ∷ 8 ∷ 9 ∷ []) (omega arith) (omega arith))

-- The same run with what was written and read.
abbrev nothing_yet : History
nothing_yet = record { sys = both; wrote_a = []; got_a = []; wrote_b = []; got_b = [] }

abbrev after_write : History
after_write = record nothing_yet { sys = record both { a = with_bytes }; wrote_a = 7 ∷ 8 ∷ 9 ∷ [] }

abbrev after_flush : History
after_flush = record after_write { sys = on_the_way }

record_wrote : record_act 1000000 (writes (7 ∷ 8 ∷ 9 ∷ [])) nothing_yet ≡ some after_write
unfolding record_act Stream.write write store left_capacity count capacity
record_wrote = refl

record_sent : record_act 1000000 (flushes takes_all) after_write ≡ some after_flush
unfolding record_act
record_sent = ap (λ o. o >>= λ x. some (record after_write { sys = x })) sent

fits_at_first : Fitting 1000000 (flushes takes_all) after_write
unfolding Fitting contents
fits_at_first = inr (omega (arith, length-take 3 (drop 0 with_bytes.wb.m_buffer)))

nothing_to_fit : Fitting 1000000 (writes (7 ∷ 8 ∷ 9 ∷ [])) nothing_yet
unfolding Fitting
nothing_to_fit = tt

Recorded-Conserved_example : Conserved after_flush
Recorded-Conserved_example = Recorded-Conserved 1000000 (omega arith) (omega arith) after_flush (
    History.acts (flushes takes_all) after_write after_flush
      (History.acts (writes (7 ∷ 8 ∷ 9 ∷ [])) nothing_yet after_write
        (History.start nothing_yet an_end-Fresh an_end-Fresh refl refl refl refl refl refl)
        nothing_to_fit record_wrote)
      fits_at_first record_sent)
