-- ===== src/Socket.antt =====
-- src/net/socket.cpp and src/net/socket_base.cpp: how a data socket sends bytes. The kernel is outside:
-- `sys n len` is what the n-th call of `::send` answers for `len` bytes. `none` is an assertion that
-- fails, or a call that is out of fuel.
pub mod Kernel
pub mod Send
pub mod Flush
mod Tests
use wawo.Prelude.{
  ℕ, zero, suc, ◌+◌, ◌-◌, Bool, true, false, Option, none, some, List, [], ◌∷◌, ◌++◌, length, take,
  drop, ltb, leb, ◌==◌, not, ◌&&◌, if◌then◌else◌, ◌>>=◌, ◌>>◌, assert,
}
use wawo.Prelude.Words.{add64}
use wawo.RingBuffer
use wawo.RingBuffer.{BytesRingbuffer, count, capacity, left_capacity}

-- The codes of include/wawo/constants.h that sending returns.
pub data SocketCode : Type 0 where
  ok e_socket_send_block e_socket_wr_shutdown_already e_socket_large_packet : SocketCode
  e_socket_send_io_block_expired : SocketCode
  other : ℕ → SocketCode

abbrev pub is_ok : SocketCode → Bool
is_ok ok = true
is_ok _ = false

abbrev pub is_send_block : SocketCode → Bool
is_send_block e_socket_send_block = true
is_send_block _ = false

-- What `::send` answers: how many bytes it took, EWOULDBLOCK, EINTR, or another error.
pub data SysSent : Type 0 where
  took : ℕ → SysSent
  would_block interrupted : SysSent
  failed : ℕ → SysSent

-- The events, and the error handler that `_begin_async_write` schedules.
pub data SocketEvent : Type 0 where
  e_wr_block e_wr_unblock async_write_cancelled : SocketEvent

-- The part of a socket that sending uses, with the bytes that the kernel took, how often it was
-- called, and the events that were scheduled.
pub record DataSocket : Type 0 where
  pub m_sb : BytesRingbuffer
  pub snd_size : ℕ
  pub write_shutdown : Bool
  pub nonblocking : Bool
  pub watch_write : Bool
  pub watch_infinite : Bool
  pub m_async_wt : ℕ
  pub m_delay_wp : ℕ
  pub wire : List ℕ
  pub calls : ℕ
  pub events : List SocketEvent

-- What a send returns: the count, `ec_o`, and the socket.
abbrev pub Sent : Type 0
Sent = ℕ × SocketCode × DataSocket

-- `_begin_async_write`: after a shutdown of writing the error handler is scheduled.
abbrev pub begin_async_write : DataSocket → DataSocket
begin_async_write s = record s {
  watch_write = if s.write_shutdown then s.watch_write else true;
  events = if s.write_shutdown then s.events ++ async_write_cancelled ∷ [] else s.events;
}

-- The end of `send`: what the kernel did not take is buffered.
unfoldable pub buffer_rest : List ℕ → ℕ → Sent → Option Sent
buffer_rest buffer now (sent, ec_o, s) =
    let to_buffer = drop sent buffer in
    let buffered =
      assert (s.nonblocking && leb (length to_buffer) (left_capacity s.m_sb))
      >> (RingBuffer.write to_buffer s.m_sb >>= λ (write_c, sb').
          assert (write_c == length to_buffer)
          >> some (
            sent + write_c,
            ec_o,
            begin_async_write
                (record s { m_sb = sb'; m_async_wt = now; events = s.events ++ e_wr_block ∷ [] }),
          )) in
    if ltb sent (length buffer) && is_send_block ec_o then buffered else some (sent, ec_o, s)

module _ (sys : ℕ → ℕ → SysSent) where
  -- The loop of `wawo::net::send`, for the bytes `rest` behind the `sent_total` that are sent.
  unfoldable pub send_loop : ℕ → List ℕ → ℕ → DataSocket → Option Sent
  send_loop zero rest sent_total s = none
  send_loop (suc fuel) rest sent_total s =
      let s1 = record s { calls = suc s.calls } in
      elim (sys s.calls (length rest)) [
        | took n ↦
            let s2 = record s1 { wire = s.wire ++ take n rest } in
            let more = send_loop fuel (drop n rest) (sent_total + n) s2 in
            assert (ltb 0 n) >> (if n == length rest then some (sent_total + n, ok, s2) else more)
        | would_block ↦ some (sent_total, e_socket_send_block, s1)
        | interrupted ↦ send_loop fuel rest sent_total s1
        | failed ec ↦ some (sent_total, other ec, s1)
      ]

  -- `socket_base::send`. Each call of `::send` that is not interrupted takes a byte at least.
  unfoldable pub base_send : List ℕ → DataSocket → Option Sent
  base_send buffer s =
      let sent = send_loop (length buffer) buffer 0 s in
      assert (ltb 0 (length buffer))
      >> (if s.write_shutdown then some (0, e_socket_wr_shutdown_already, s) else sent)

  -- `socket::send`, with `ec_o` as it is at the call: the branch that buffers all leaves it alone.
  unfoldable pub send : List ℕ → Bool → SocketCode → ℕ → DataSocket → Option Sent
  unfolding buffer_rest
  send buffer use_snd_buffer ec_o now s =
      let size = length buffer in
      let appended = RingBuffer.write buffer s.m_sb >>= λ (wcount, sb').
      assert (wcount == size) >> some (wcount, ec_o, record s { m_sb = sb' }) in
      let sent = base_send buffer s >>= buffer_rest buffer now in
      assert (ltb 0 size && leb size (capacity s.m_sb))
      >> (if s.write_shutdown
          then some (0, e_socket_wr_shutdown_already, s)
          else (if ltb s.snd_size size
              then some (0, e_socket_large_packet, s)
              else (if s.nonblocking && not (count s.m_sb == 0)
                  then (if use_snd_buffer && ltb size (left_capacity s.m_sb)
                      then appended
                      else some (0, e_socket_send_block, s))
                  else sent)))

  -- The loop of `_flush`: the count, `ec_o`, and the socket. `left` is what `m_sb` holds then.
  unfoldable pub flush_loop : ℕ → ℕ → SocketCode → DataSocket → Option Sent
  flush_loop zero flushed ec_o s = none
  flush_loop (suc fuel) flushed ec_o s =
      let round = RingBuffer.peek s.snd_size s.m_sb >>= λ (to_send, m_tsb, r).
      base_send m_tsb s >>= λ (sent, ec, s'). RingBuffer.skip sent s'.m_sb >>= λ sb'.
      flush_loop fuel (flushed + sent) ec (if ltb 0 sent then record s' { m_sb = sb' } else s') in
      if not (count s.m_sb == 0) && is_ok ec_o then round else some (flushed, ec_o, s)

  unfoldable pub flush : DataSocket → Option Sent
  flush s = assert s.nonblocking >> flush_loop (suc (suc (count s.m_sb))) 0 ok s

  -- `socket::send_packet`, for what the stream's `encode` answers: the packet as it goes out, or a
  -- code. `send_ec` is not set before the call of `send`.
  unfoldable pub send_packet :
      (List ℕ → SocketCode × List ℕ)
      → List ℕ
      → Bool
      → SocketCode
      → ℕ
      → DataSocket
      → Option (SocketCode × DataSocket)
  send_packet encode packet use_snd_buffer send_ec now s =
      let (rt, tlp_pack) = encode packet in
      let sent = send tlp_pack use_snd_buffer send_ec now s >>= λ (n, ec, s').
      some ((if n == length tlp_pack then ok else ec), s') in
      if is_ok rt then sent else some (rt, s)

  -- `handle_async_write` behind its loop, which ends when nothing is left or the answer is not OK, and
  -- `_flush` returns only then.
  unfoldable pub after_write : ℕ → Sent → Option (SocketCode × DataSocket)
  after_write now (flushed_total, ec_o, s) =
      let unblocked = record s {
        watch_write = false;
        watch_infinite = false;
        m_async_wt = 0;
        events = s.events ++ e_wr_unblock ∷ [];
      } in
      let expired = flushed_total == 0 && ltb (add64 s.m_async_wt s.m_delay_wp) now in
      let again =
        begin_async_write
          (record s { m_async_wt = if ltb 0 flushed_total then now else s.m_async_wt }) in
      if count s.m_sb == 0
      then (assert (is_ok ec_o) >> some (ec_o, (if ltb 0 flushed_total then unblocked else s)))
      else (assert (not (s.m_async_wt == 0))
          >> some (
              if is_send_block ec_o
              then (if expired then (e_socket_send_io_block_expired, s) else (ec_o, again))
              else (ec_o, s)))

  unfoldable pub handle_async_write : ℕ → DataSocket → Option (SocketCode × DataSocket)
  unfolding after_write
  handle_async_write now s =
      flush (if s.watch_infinite then s else record s { watch_write = false }) >>= after_write now
