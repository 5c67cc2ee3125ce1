-- ===== src/Wcp/Recv/Deliver.antt =====
-- The last loop of `WCB::check_recv` of src/net/wcp.cpp: what stands in sequence at the front of
-- `rcv_received` is written to the reader's ring, and its flags drive the connection's state.
pub mod Order
pub mod InOrder
pub mod Steps
use wawo.Prelude.{
  ℕ, ◌+◌, Bool, true, false, Option, none, some, List, [], ◌∷◌, leb, ltb, if◌then◌else◌, ◌==◌, not,
  ◌&&◌, ◌||◌, assert, ◌>>=◌, ◌>>◌, length, take,
}
use wawo.Prelude.Words.{add32}
use wawo.RingBuffer
use wawo.Wcp.Flag
use wawo.Wcp.Flag.{test_flag}
use wawo.Wcp.Pack.{WcbReceivedPack, wcp_mtu}
use wawo.Wcp.Types.{
  Wcb, WcbRcvInfo, ReadFlag, Errno, is_ok, e_econnaborted, e_econnreset, WcbState, closed, listen,
  syning, syn_sent, syn_received, fin_wait_1, closing, fin_wait_2, established, close_wait,
  time_wait, last_ack, recycle,
}
use wawo.Wcp.Queue.{synack, synsynack, finack}
use wawo.Wcp.Net.{is_address, reply_rst_to_address}

-- How a round of the loop ends: it goes on, or stops with the pack taken out or left in the list.
pub data Delivery : Type 0 where
  go : Wcb → Delivery
  stop : Bool → Wcb → Delivery

abbrev pub if_go : Option Delivery → (Wcb → Option Delivery) → Option Delivery
if_go none f = none
if_go (some (go w)) f = f w
if_go (some (stop erase w)) f = some (stop erase w)

abbrev pub aborted : Wcb → Wcb
aborted w = record w { state = closed; wcb_errno = e_econnaborted }

-- The payload goes to `rb_standby`, whose room is the window that is told to the peer.
unfoldable pub store_data : WcbReceivedPack → Wcb → Option Delivery
store_data inpack w =
    RingBuffer.write (take inpack.header.dlen inpack.data_bytes) w.rb_standby >>= λ (n, rb).
    let wnd = RingBuffer.left_capacity rb in
    some (
      go (record w {
        rb_standby = rb;
        rcv_info = record (w.rcv_info) { wnd = wnd };
        r_flag =
            if leb wnd wcp_mtu
            then record (w.r_flag) { rwnd_less_than_mtu = true }
            else record (w.r_flag) { rwnd_less_than_mtu = false; rwnd_more_than_mtu = false };
      }))

-- `rcv_info.next++`.
abbrev pub bump_next : Wcb → Wcb
bump_next w = record w { rcv_info = record (w.rcv_info) { next = add32 w.rcv_info.next 1 } }

module _ (net : ℕ → Errno) (connectrt : Errno) (now : ℕ) where
  -- A payload whose pack holds no handshake flag: a stranger's is answered with an RST, and one
  -- that the ring has no room for waits.
  unfoldable pub accept_data : WcbReceivedPack → Wcb → Option Delivery
  accept_data inpack w =
      let crowded = record w { r_flag = record (w.r_flag) { rwnd_less_than_mtu = true } } in
      if not (is_address w.remote_addr inpack.from)
      then (reply_rst_to_address net inpack.header.ack inpack.from w >>= λ w'.
          some (stop true (aborted w')))
      else (if ltb (RingBuffer.left_capacity w.rb_standby) inpack.header.dlen
          then some (stop false crowded)
          else store_data inpack w)

  unfoldable pub deliver_data : WcbReceivedPack → Wcb → Option Delivery
  deliver_data inpack w =
      let h = inpack.header in
      if h.dlen == 0
      then some (go w)
      else (assert (test_flag h.flag Flag.dat)
          >> (assert (not (test_flag h.flag Flag.syn || test_flag h.flag Flag.fin))
              >> accept_data inpack w))

  unfoldable pub deliver_rst : WcbReceivedPack → Wcb → Option Delivery
  deliver_rst inpack w =
      if test_flag inpack.header.flag Flag.rst
      then some (stop false (record w { wcb_errno = e_econnreset; state = closed }))
      else some (go w)

  unfoldable pub deliver_syn : WcbReceivedPack → Wcb → Option Delivery
  deliver_syn inpack w =
      let handled : Option Delivery = elim w.state [
        | syn_received ↦ some (go (synsynack w))
        | syn_sent ↦ some (go (synack (record w { remote_addr = some inpack.from })))
        | _ ↦ reply_rst_to_address net inpack.header.ack inpack.from w >>= λ w'.
            some (stop true (aborted w'))
      ] in
      if test_flag inpack.header.flag Flag.syn then handled else some (go w)

  -- The socket is connected to the peer that answered the SYN.
  unfoldable pub connect_peer : WcbReceivedPack → Wcb → Option Delivery
  connect_peer inpack w =
      assert (is_address w.remote_addr inpack.from)
      >> some (
          go (
            if is_ok connectrt
            then record w { state = established }
            else record w { wcb_errno = connectrt; state = closed }))

  unfoldable pub deliver_ack : WcbReceivedPack → Wcb → Option Delivery
  deliver_ack inpack w =
      let handled : Option Delivery = elim w.state [
        | syn_sent ↦ connect_peer inpack w
        | syn_received ↦ some (go (record w { state = established }))
        | fin_wait_1 ↦ some (go (record w { state = fin_wait_2 }))
        | last_ack ↦ some (go (record w { state = closed }))
        | closing ↦ some (go (record w { timer_state = now; state = time_wait }))
        | established ↦ some (go w)
        | fin_wait_2 ↦ some (go w)
        | close_wait ↦ some (go w)
        | time_wait ↦ some (go w)
        | _ ↦ none
      ] in
      if test_flag inpack.header.flag Flag.ack then handled else some (go w)

  unfoldable pub deliver_fin : WcbReceivedPack → Wcb → Option Delivery
  deliver_fin inpack w =
      let handled : Option Wcb = elim w.state [
        | established ↦ some (record w {
          state = close_wait;
          r_flag = record (w.r_flag) {
            remote_fin_received = true;
            remote_fin_read_by_user = false;
          };
        })
        | fin_wait_1 ↦ some (record w { state = closing })
        | fin_wait_2 ↦ some (record w { timer_state = now; state = time_wait })
        | _ ↦ reply_rst_to_address net inpack.header.ack inpack.from (aborted w)
      ] in
      if test_flag inpack.header.flag Flag.fin
      then (handled >>= λ w'. some (go (finack w')))
      else some (go w)

  -- One round, of a pack in sequence.
  unfoldable pub deliver_one : WcbReceivedPack → Wcb → Option Delivery
  deliver_one inpack w = if_go (deliver_data inpack w) λ w1.
      if_go (deliver_rst inpack (bump_next w1))
        λ w2. if_go (deliver_syn inpack w2) λ w3. if_go (deliver_ack inpack w3) (deliver_fin inpack)

  -- The loop; the list is what is left of `rcv_received`.
  unfoldable pub deliver : List WcbReceivedPack → Wcb → Option Wcb
  deliver [] w = some (record w { rcv_received = [] })
  deliver (p ∷ ps) w =
      assert (leb w.rcv_info.next p.header.seq)
      >> (if p.header.seq == w.rcv_info.next
          then (deliver_one p w >>= elim [
            | go w' ↦ deliver ps w'
            | stop true w' ↦ some (record w' { rcv_received = ps })
            | stop false w' ↦ some (record w' { rcv_received = p ∷ ps })
          ])
          else some (record w { rcv_received = p ∷ ps }))
