-- ===== src/Wcp/Recv.antt =====
-- `WCB::check_recv` of src/net/wcp.cpp, in the order of its text: the packs that arrived are sorted in,
-- the acknowledgements taken, and what is in sequence delivered.
pub mod Insert
pub mod Deliver
use wawo.Prelude.{
  ℕ, ◌+◌, ◌-◌, ◌*◌, ◌/◌, ◌%◌, ◌^◌, Bool, true, false, Option, none, some, List, [], ◌∷◌, ◌++◌, leb,
  ltb, if◌then◌else◌, ◌==◌, not, ◌&&◌, ◌||◌, assert, ◌>>=◌, ◌>>◌, length,
}
use mathlib.Core.List.{reverse}
use wawo.Prelude.Words.{add32}
use wawo.Bytes.{read_u32, write_u32}
use wawo.RingBuffer
use wawo.Wcp.Flag
use wawo.Wcp.Flag.{test_flag}
use wawo.Wcp.Pack.{WcbPack, WcbReceivedPack}
use wawo.Wcp.Types.{
  Wcb, WcbSndInfo, WcbRcvInfo, WcbFlag, ReadFlag, Errno, e_etimeout, WcbKeepaliveVals, sub64,
  wawo_min, wawo_max, wcp_snd_cwnd_max, wcp_snd_ssthresh_max,
}
use wawo.Wcp.Queue.{keepalive, keepalive_reply, sack}
use wawo.Wcp.Rtt.{handle_pack_acked}
use Deliver.{deliver}
use Insert.{insert}

-- Nothing arrived: a probe, or the end of the connection.
unfoldable pub recv_nothing : ℕ → Wcb → Wcb
recv_nothing now w =
    let timediff = sub64 now w.keepalive_timer_last_received_pack / 1000 in
    let k = w.keepalive_vals in
    let probed = record (keepalive w) {
      keepalive_probes_sent = (w.keepalive_probes_sent + 1) % 2 ^ 8;
    } in
    if leb k.probes w.keepalive_probes_sent
    then record w { r_flag = record (w.r_flag) { recv_error = true }; wcb_errno = e_etimeout }
    else (if leb (k.idle + k.interval * w.keepalive_probes_sent) timediff then probed else w)

-- The part of every pack: its acknowledgement and its window.
unfoldable pub take_ack : WcbReceivedPack → Wcb → Wcb
take_ack pack w =
    let h = pack.header in
    let w1 =
      if ltb w.snd_info.una h.ack
      then record w {
        snd_info = record (w.snd_info) { una = h.ack; rwnd = h.wnd };
        wcb_flag = record (w.wcb_flag) { snd_una_update = true };
      }
      else w in
    if test_flag h.flag Flag.wnd
    then record w1 { snd_info = record (w1.snd_info) { rwnd = h.wnd } }
    else w1

-- The sequence numbers in the data of a SACK pack: every read asserts that four bytes are left.
unfoldable pub sacked_seqs : List ℕ → Option (List ℕ)
sacked_seqs [] = some []
sacked_seqs (a ∷ b ∷ c ∷ d ∷ rest) =
    sacked_seqs rest >>= λ seqs. some (read_u32 (a ∷ b ∷ c ∷ d ∷ []) ∷ seqs)
sacked_seqs _ = none

-- One pack of the vector; the list is `acked_queue`.
unfoldable pub recv_one : WcbReceivedPack → List ℕ × Wcb → Option (List ℕ × Wcb)
recv_one pack (acked_queue, w) =
    let h = pack.header in
    let w1 = take_ack pack w in
    let noted = record w1 { snd_sacked_pack_tmp = w1.snd_sacked_pack_tmp ++ write_u32 h.seq } in
    let sorted = record noted { rcv_received = insert pack w1.rcv_received } in
    if test_flag h.flag Flag.sack
    then (assert (not (length pack.data_bytes == 0))
        >> (sacked_seqs pack.data_bytes >>= λ seqs. some (acked_queue ++ seqs, w1)))
    else (if test_flag h.flag Flag.keep_alive
        then some (acked_queue, keepalive_reply w1)
        else (if test_flag h.flag Flag.keep_alive_reply
            then some (acked_queue, w1)
            else some (acked_queue, if ltb h.seq w1.rcv_info.next then noted else sorted)))

unfoldable pub recv_all : List WcbReceivedPack → List ℕ × Wcb → Option (List ℕ × Wcb)
recv_all [] s = some s
recv_all (p ∷ ps) s = recv_one p s >>= recv_all ps

-- The first pack on the flight with the sequence number, and the flight without it.
unfoldable pub find_flight : ℕ → List WcbPack → Option WcbPack
find_flight seq [] = none
find_flight seq (p ∷ ps) = if p.header.seq == seq then some p else find_flight seq ps

unfoldable pub erase_flight : ℕ → List WcbPack → List WcbPack
erase_flight seq [] = []
erase_flight seq (p ∷ ps) = if p.header.seq == seq then ps else p ∷ erase_flight seq ps

-- The end of a recovery: the window gets its compensation, and ssthresh the larger value.
unfoldable pub fast_recover : ℕ → Wcb → Wcb
fast_recover ack w =
    let time = (w.snd_lost_bigger_than_lost_seq_time + 1) % 2 ^ 8 in
    let counted = record w { snd_lost_bigger_than_lost_seq_time = time } in
    let cwnd =
      wawo_min (add32 w.snd_info.cwnd w.snd_lost_cwnd_for_fast_recovery_compensation)
        wcp_snd_cwnd_max in
    let recovered = record counted {
      snd_info = record (w.snd_info) {
        cwnd = cwnd;
        ssthresh = wawo_max (wawo_min cwnd wcp_snd_ssthresh_max) w.snd_info.ssthresh;
      };
      snd_lost_cwnd_for_fast_recovery_compensation = 0;
      wcb_flag = record (w.wcb_flag) { snd_fast_recovered = true; snd_lost_detected = false };
    } in
    if w.wcb_flag.snd_lost_detected && ltb w.snd_lost_biggest_seq ack
    then (if leb 1 time && ltb w.snd_lost_biggest_seq w.snd_info.una then recovered else counted)
    else w

-- The pack with the number leaves the flight, if it is there.
unfoldable pub ack_flight : ℕ → ℕ → Wcb → Option Wcb
ack_flight now ack w = elim (find_flight ack w.snd_flights) [
  | none ↦ some w
  | some p ↦ handle_pack_acked p now w >>= λ w'.
      some (record w' { snd_flights = erase_flight ack w.snd_flights })
]

-- One entry of `acked_queue`.
unfoldable pub ack_one : ℕ → ℕ → Wcb → Option Wcb
ack_one now ack w =
    let w1 =
      if ltb w.snd_biggest_ack ack
      then record w {
        snd_biggest_ack = ack;
        wcb_flag = record (w.wcb_flag) { snd_biggest_sack_update = true };
      }
      else w in
    if ltb ack w.snd_info.una
    then some w
    else (ack_flight now ack w1 >>= λ w2. some (fast_recover ack w2))

unfoldable pub ack_all : ℕ → List ℕ → Wcb → Option Wcb
ack_all now [] w = some w
ack_all now (a ∷ as') w = ack_one now a w >>= ack_all now as'

-- SACK answers what was noted, and the note is emptied.
unfoldable pub answer_sack : Wcb → Wcb
answer_sack w =
    if length w.snd_sacked_pack_tmp == 0
    then w
    else record (sack w.snd_sacked_pack_tmp w) { snd_sacked_pack_tmp = [] }

-- The reader's ring is empty: it gets the one that was filled.
unfoldable pub swap_rb : Wcb → Wcb
swap_rb w =
    let swapped = record w { rb = w.rb_standby; rb_standby = w.rb } in
    let told = record swapped {
      r_flag = record (w.r_flag) { rwnd_more_than_mtu = true };
      rcv_info = record (w.rcv_info) { wnd = RingBuffer.left_capacity w.rb };
    } in
    if (RingBuffer.count w.rb == 0) && not (RingBuffer.count w.rb_standby == 0)
    then (if w.r_flag.rwnd_less_than_mtu then told else swapped)
    else w

-- `connectrt` is what the socket's `connect` answers, once a SYN is acknowledged.
unfoldable pub check_recv : (ℕ → Errno) → Errno → ℕ → Wcb → Option Wcb
check_recv net connectrt now w =
    let received_vec = w.received_vec_standby in
    let w0 = record w { received_vec_standby = [] } in
    let w1 = record w0 { keepalive_timer_last_received_pack = now; keepalive_probes_sent = 0 } in
    let received = do
      (acked_queue, w2) ← recv_all received_vec ([], w1)
      w3 ← ack_all now acked_queue (answer_sack w2)
      w4 ← deliver net connectrt now w3.rcv_received w3
      some (swap_rb w4)
    in if length received_vec == 0 then some (swap_rb (recv_nothing now w0)) else received
