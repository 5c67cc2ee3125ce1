-- ===== src/Mux/Flush.antt =====
-- `stream::_flush` of src/net/peer/message/mux_cargo.cpp and `stream::update` of
-- include/wawo/net/peer/message/mux_cargo.hpp. `none` is an assertion that fails.
pub mod Buffer
pub mod Determine
pub mod Whole
pub mod Data
pub mod Moves
use wawo.Prelude.{
  ℕ, zero, suc, Bool, true, false, Option, none, some, List, [], ltb, leb, ◌==◌, not, ◌&&◌,
  if◌then◌else◌, ◌>>=◌, ◌>>◌, assert,
}
use wawo.Prelude.Words.{add32, sub32}
use wawo.Bytes.{write_u32}
use wawo.RingBuffer
use wawo.RingBuffer.{BytesRingbuffer, count, capacity}
use wawo.Mux.{
  MuxCode, ok, is_ok, is_send_block, StreamState, ss_closed, ss_established, ss_recycle,
  StreamWriteFlag, MuxStream, Socket, mux_stream_wnd_size, t_data, t_fin, t_syn, t_uwnd, encode,
  send_packet,
}
use wawo.Mux.Stream.{force_close}

abbrev pub no_flag : StreamWriteFlag
no_flag = record { write_blocked = false; write_unblocked = false }

-- `while (wb->count())` by which the bytes are moved to a ring of another size, 8192 at a time; what
-- `write` answers is not read. Each round takes a byte at least, so that `count` rounds are enough.
unfoldable pub move_bytes : ℕ → BytesRingbuffer → BytesRingbuffer → Option BytesRingbuffer
move_bytes zero wb sb_new = if count wb == 0 then some sb_new else none
move_bytes (suc fuel) wb sb_new =
    let round = RingBuffer.read 8192 true wb >>= λ (nbytes, tmp, wb').
    RingBuffer.write tmp sb_new >>= λ (n, sb'). move_bytes fuel wb' sb' in
    if count wb == 0 then some sb_new else round

unfoldable pub buffer_size : ℕ → MuxStream → ℕ
buffer_size snd_size s =
    let try_size = sub32 snd_size 1024 in
    if ltb try_size (capacity s.wb) then try_size else capacity s.wb

-- `not_yet`: the flag STREAM_BUFFER_DETERMINED is not set.
unfoldable pub determine_if : Bool → ℕ → MuxStream → Option MuxStream
determine_if false size s = some s
determine_if true size s =
    let s1 = record s { flag = record (s.flag) { buffer_determined = true } } in
    let moved = RingBuffer.init size >>= λ sb.
    move_bytes (count s.wb) s.wb sb >>= λ sb_new. some (record s1 { wb = sb_new }) in
    if size == capacity s.wb then some s1 else moved

unfoldable pub determine_buffer : ℕ → MuxStream → Option MuxStream
unfolding buffer_size determine_if
determine_buffer snd_size s = determine_if (not s.flag.buffer_determined) (buffer_size snd_size s) s

-- The state behind a part of `_flush`: `ec_o`, the stream and the socket.
abbrev pub Flushed : Type 0
Flushed = MuxCode × MuxStream × Socket

abbrev pub can_send_max : ℕ → MuxStream → ℕ
can_send_max flushed s =
    let left = sub32 mux_stream_wnd_size flushed in if ltb s.wb_wnd left then s.wb_wnd else left

abbrev pub may_send : ℕ → MuxStream → Bool
may_send flushed s = not (count s.wb == 0) && (ltb flushed mux_stream_wnd_size && ltb 0 s.wb_wnd)

-- Two rounds are enough: the first empties the ring, or uses up the window or the share.
abbrev pub flush_fuel : ℕ
flush_fuel = 2

abbrev pub Flush : Type 0
Flush = StreamWriteFlag × Flushed

-- The end of `_flush`, which tells of a stream that may be written again.
unfoldable pub unblock : ℕ × Flushed → Flush
unblock (flushed, (ec_o, s, so)) =
    if ltb 0 flushed && s.write_flag.write_blocked
    then (
      record { write_blocked = true; write_unblocked = true },
      (ec_o, record s { write_flag = record (s.write_flag) { write_blocked = false } }, so),
    )
    else (no_flag, (ec_o, s, so))

-- What `update` does with the answer of `_flush`; an error closes socket and stream.
unfoldable pub after_flush : Flush → StreamWriteFlag × MuxStream × Option Socket
after_flush (wflag, (ec_o, s, so)) =
    if is_ok ec_o
    then (wflag, s, some so)
    else (if is_send_block ec_o
        then (record wflag { write_blocked = true }, s, some so)
        else (wflag, force_close s, some (record so { connected = false })))

module _ (net : ℕ → MuxCode) where
  -- A message of the stream.
  unfoldable pub send : ℕ → List ℕ → MuxStream → Socket → MuxCode × Socket
  unfolding send_packet
  send type opack s so = send_packet net (encode s.id type opack) so

  -- The part of `_flush` that sends a message if it is `planned`, and turns `s` into `s'` if the
  -- socket took it.
  unfoldable pub tell : Bool → ℕ → List ℕ → MuxStream → MuxStream → Socket → Flushed
  unfolding send
  tell false type opack s s' so = (ok, s, so)
  tell true type opack s s' so =
      let (ec_o, so') = send type opack s so in (ec_o, (if is_ok ec_o then s' else s), so')

  unfoldable pub flush_uwnd : MuxStream → Socket → Flushed
  unfolding tell
  flush_uwnd s so =
      tell (ltb 0 s.rb_incre) t_uwnd (write_u32 s.rb_incre) s (record s { rb_incre = 0 }) so

  unfoldable pub flush_fin : MuxStream → Socket → Flushed
  unfolding tell
  flush_fin s so =
      tell s.flag.plan_fin t_fin [] s
        (record s { flag = record (s.flag) { plan_fin = false; write_shutdown = true } }) so

  unfoldable pub flush_syn : MuxStream → Socket → Flushed
  unfolding tell
  flush_syn s so =
      tell s.flag.plan_syn t_syn [] s (record s { flag = record (s.flag) { plan_syn = false } }) so

  -- One round of the loop that sends data: the count of the bytes, and the state behind it.
  unfoldable pub send_data : ℕ → MuxStream → Socket → Option (ℕ × Flushed)
  unfolding send
  send_data can_send_max s so = RingBuffer.peek can_send_max s.wb >>= λ (nbytes, opack, r).
      assert (ltb 0 nbytes && leb nbytes can_send_max)
      >> (let (ec_o, so') = send t_data opack s so in
          let sent = RingBuffer.skip nbytes s.wb >>= λ wb'.
          assert (leb nbytes s.wb_wnd)
          >> some (nbytes, (ec_o, record s { wb = wb'; wb_wnd = sub32 s.wb_wnd nbytes }, so')) in
          if is_ok ec_o then sent else some (nbytes, (ec_o, s, so')))

  -- The loop, with the count `flushed` of the bytes sent.
  unfoldable pub flush_data : ℕ → ℕ → MuxStream → Socket → Option (ℕ × Flushed)
  flush_data zero flushed s so = none
  flush_data (suc fuel) flushed s so =
      let round = send_data (can_send_max flushed s) s so >>= λ (nbytes, (ec_o, s', so')).
      (let next = flush_data fuel (add32 flushed nbytes) s' so' in
        if is_ok ec_o then next else some (flushed, (ec_o, s', so'))) in
      if may_send flushed s then round else some (flushed, (ok, s, so))

  -- From the determination of the buffer on.
  unfoldable pub flush_bytes : ℕ → MuxStream → Socket → Option Flush
  unfolding flush_syn
  flush_bytes snd_size s so = determine_buffer snd_size s >>= λ s1.
      (let (ec_o, s2, so') = flush_syn s1 so in
        let data' = flush_data flush_fuel 0 s2 so' >>= λ r. some (unblock r) in
        if is_ok ec_o then data' else some (no_flag, (ec_o, s2, so')))

  -- From the test for a stream that is shut on.
  unfoldable pub flush_open : ℕ → MuxStream → Socket → Option Flush
  flush_open snd_size s so =
      let bytes = flush_bytes snd_size s so in
      if s.rb_incre == 0 && (s.flag.write_shutdown && s.flag.read_shutdown)
      then some (no_flag, (ok, record s { state = ss_closed }, so))
      else (if s.flag.write_shutdown
          then some (no_flag, (ok, s, so))
          else (if count s.wb == 0 then some (no_flag, flush_fin s so) else bytes))

  unfoldable pub flush : ℕ → MuxStream → Socket → Option Flush
  unfolding flush_uwnd
  flush snd_size s so =
      let (ec_o, s1, so1) = flush_uwnd s so in
      let rest = flush_open snd_size s1 so1 in
      if is_ok ec_o then rest else some (no_flag, (ec_o, s1, so1))

  -- `update` in the state ESTABLISHED; the socket may be null.
  unfoldable pub update_established :
      ℕ → MuxStream → Option Socket → Option (StreamWriteFlag × MuxStream × Option Socket)
  update_established snd_size s none = none
  update_established snd_size s (some so) = flush snd_size s so >>= λ f. some (after_flush f)

  -- `update`, by the state. The state that it returns is the stream's.
  unfoldable pub update_in :
      StreamState
      → ℕ
      → MuxStream
      → Option Socket
      → Option (StreamWriteFlag × MuxStream × Option Socket)
  unfolding update_established
  update_in ss_established snd_size s so = update_established snd_size s so
  update_in ss_closed snd_size s so = some (
    no_flag,
    (if s.flag.read_shutdown && s.flag.write_shutdown then record s { state = ss_recycle } else s),
    so,
  )
  update_in ss_recycle snd_size s so = some (no_flag, s, so)

  unfoldable pub update :
      ℕ → MuxStream → Option Socket → Option (StreamWriteFlag × MuxStream × Option Socket)
  unfolding update_in
  update snd_size s so = update_in s.state snd_size s so
