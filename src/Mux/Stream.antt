-- ===== src/Mux/Stream.antt =====
-- The operations of `class stream` of include/wawo/net/peer/message/mux_cargo.hpp. `none` is an
-- assertion that fails.
pub mod Sound
use wawo.Prelude.{
  ℕ, ◌+◌, Bool, true, false, Option, none, some, List, [], length, ltb, ◌==◌, not, ◌&&◌, ◌||◌,
  if◌then◌else◌, ◌>>=◌, ◌>>◌, assert,
}
use wawo.Prelude.Words.{add32}
use wawo.RingBuffer
use wawo.RingBuffer.{BytesRingbuffer, count, left_capacity}
use wawo.Mux.{
  MuxCode, ok, e_mux_stream_write_block, e_mux_stream_cargo_stream_read_shutdowned_already,
  e_mux_stream_cargo_stream_write_shutdowned_already, e_mux_stream_cargo_stream_closed_already,
  ss_closed, ss_established, is_closed, is_established, MuxStream, mux_stream_wnd_size,
}

-- A ring that is not allocated yet.
abbrev null_ring : BytesRingbuffer
null_ring = record { m_capacity = 0; m_begin = 0; m_end = 0; m_buffer = [] }

-- The constructor.
abbrev pub stream : MuxStream
stream = record {
  ctx = none;
  state = ss_closed;
  flag = record {
    read_shutdown_called = false;
    read_shutdown = false;
    write_shutdown_called = false;
    write_shutdown = false;
    plan_fin = false;
    plan_syn = false;
    buffer_determined = false;
  };
  id = 0;
  rb = null_ring;
  rb_incre = 0;
  wb = null_ring;
  wb_wnd = 0;
  write_flag = record { write_blocked = false; write_unblocked = false };
}

unfoldable pub init : MuxStream → Option MuxStream
init s = do
  rb' ← RingBuffer.init mux_stream_wnd_size
  wb' ← RingBuffer.init mux_stream_wnd_size
  some (record s {
    rb = rb';
    wb = wb';
    rb_incre = 0;
    wb_wnd = mux_stream_wnd_size;
    write_flag = record { write_blocked = false; write_unblocked = false };
  })

-- A packet that does not fit is refused as a whole, and the stream remembers that.
unfoldable pub write : List ℕ → MuxStream → Option (MuxCode × MuxStream)
write opack s =
    let written = RingBuffer.write opack s.wb >>= λ (nwrites, wb').
    assert (nwrites == length opack) >> some (ok, record s { wb = wb' }) in
    if s.flag.write_shutdown_called || s.flag.write_shutdown
    then some (e_mux_stream_cargo_stream_write_shutdowned_already, s)
    else (if ltb (left_capacity s.wb) (length opack)
        then some (
          e_mux_stream_write_block,
          record s { write_flag = record (s.write_flag) { write_blocked = true } },
        )
        else written)

-- `read(pack, max)`: the count, the bytes of the packet, and the stream.
unfoldable pub read : ℕ → MuxStream → Option (ℕ × List ℕ × MuxStream)
read max s =
    let try_max = if not (max == 0) && ltb max (count s.rb) then max else count s.rb in
    let taken = RingBuffer.read try_max true s.rb >>= λ (rcount, pack, rb').
    some (rcount, pack, record s { rb = rb'; rb_incre = add32 s.rb_incre rcount }) in
    if count s.rb == 0 then some (0, [], s) else taken

unfoldable pub snd_fin : MuxStream → Option MuxStream
snd_fin s = do
  assert (is_established s.state)
  assert (not (s.id == 0))
  assert (not s.flag.write_shutdown_called)
  assert (not s.flag.plan_fin)
  some (record s { flag = record (s.flag) { plan_fin = true } })

unfoldable pub snd_syn : MuxStream → Option MuxStream
snd_syn s = do
  assert (not s.flag.plan_syn)
  some (record s { flag = record (s.flag) { plan_syn = true } })

unfoldable pub open_stream : ℕ → Option ℕ → MuxStream → Option (MuxCode × MuxStream)
unfolding snd_syn
open_stream new_id new_ctx s = do
  assert (s.id == 0)
  assert (is_closed s.state)
  s' ← snd_syn (record s { id = new_id; state = ss_established; ctx = new_ctx })
  some (ok, s')

-- The bytes that nobody will read are handed back to the sender's window.
unfoldable pub shut_read : MuxStream → MuxStream
shut_read s = record s {
  flag = record (s.flag) { read_shutdown_called = true; read_shutdown = true };
  rb_incre = if count s.rb == 0 then s.rb_incre else add32 s.rb_incre (count s.rb);
}

unfoldable pub shut_write : MuxStream → Option MuxStream
unfolding snd_fin
shut_write s = snd_fin s >>= λ s'.
    some (record s' { flag = record (s'.flag) { write_shutdown_called = true } })

unfoldable pub close_read : MuxStream → MuxCode × MuxStream
unfolding shut_read
close_read s =
    if s.flag.read_shutdown_called
    then (e_mux_stream_cargo_stream_read_shutdowned_already, s)
    else (ok, shut_read s)

unfoldable pub close_write : MuxStream → Option (MuxCode × MuxStream)
unfolding shut_write
close_write s =
    let shut = shut_write s >>= λ s'. some (ok, s') in
    if s.flag.write_shutdown_called
    then some (e_mux_stream_cargo_stream_write_shutdowned_already, s)
    else shut

unfoldable pub is_read_write_closed : MuxStream → Bool
is_read_write_closed s =
    (s.flag.read_shutdown && s.flag.plan_fin) || (s.flag.read_shutdown && s.flag.write_shutdown)

unfoldable pub close : MuxStream → Option (MuxCode × MuxStream)
unfolding shut_read shut_write
close s =
    let s1 = if s.flag.read_shutdown_called then s else shut_read s in
    let shut = shut_write s1 >>= λ s'. some (ok, s') in
    if s.flag.read_shutdown_called && s.flag.write_shutdown_called
    then some (e_mux_stream_cargo_stream_closed_already, s)
    else (if s1.flag.write_shutdown_called then some (ok, s1) else shut)

-- Both directions are shut at once, and what is in the rings stays there.
unfoldable pub force_close : MuxStream → MuxStream
force_close s = record s {
  flag = record (s.flag) {
    read_shutdown_called = true;
    read_shutdown = true;
    write_shutdown_called = true;
    write_shutdown = true;
  };
  state = ss_closed;
}
