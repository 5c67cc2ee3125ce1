-- ===== src/Wcp/Tests/Receive.antt =====
-- Receiving, at concrete values.
use wawo.Prelude.{◌≡◌, true, false, ◌≤◌, refl, some, List, [], ◌∷◌, ◌++◌, arith, length, ℕ}
use wawo.RingBuffer.{contents, left_capacity, capacity, count}
use wawo.Wcp.Flag
use wawo.Wcp.Flag.{test_flag}
use wawo.Wcp.Pack.{WcbReceivedPack}
use wawo.Wcp.Types.{Wcb, ok, established, close_wait}
use wawo.Wcp.Queue.{control, finack, enqueue}
use wawo.Wcp.Recv.Insert.{insert}
use wawo.Wcp.Recv.Insert.Sorted.{IsSorted, find, or_else, insert_lem}
use wawo.Wcp.Recv.Deliver.{
  deliver, deliver_one, deliver_data, deliver_rst, deliver_syn, deliver_ack, deliver_fin,
}
use wawo.Wcp.Recv.Deliver.Steps.{Reaches, phase, deliver-Reaches, deliver-phase}
use wawo.Wcp.Recv.Deliver.Order.{payloads}
use wawo.Wcp.Recv.Deliver.InOrder.{Consumed, Expected, deliver_in_order, all_delivered}
use wawo.Wcp.Tests.{small_ring-IsValid, quiet, block, received, header, peer}

abbrev two_packs : List WcbReceivedPack
two_packs = received 7 (1 ∷ 2 ∷ 3 ∷ []) 3 ∷ received 8 (4 ∷ 5 ∷ []) 2 ∷ []

two_packs-Expected : Expected 7 block two_packs
unfolding test_flag
two_packs-Expected = (
  refl,
  omega arith,
  omega arith,
  refl,
  refl,
  refl,
  refl,
  refl,
  (refl, omega arith, omega arith, refl, refl, refl, refl, refl, tt),
)

two_packs_fit : length (payloads two_packs) ≤ left_capacity block.rb_standby
unfolding left_capacity capacity count
two_packs_fit = omega arith

all_delivered_example :
    (u : Wcb) × (deliver quiet ok 0 two_packs block ≡ some u)
    × (contents u.rb_standby ≡ contents block.rb_standby ++ (1 ∷ 2 ∷ 3 ∷ 4 ∷ 5 ∷ []))
    × (u.rcv_info.next ≡ 9)
    × (u.rcv_received ≡ [])
    × (u.state ≡ established)
all_delivered_example =
    all_delivered quiet ok 0 two_packs block small_ring-IsValid refl two_packs-Expected
      two_packs_fit

deliver_in_order_example :
    Consumed block two_packs
      (all_delivered quiet ok 0 two_packs block small_ring-IsValid refl two_packs-Expected
        two_packs_fit).0
deliver_in_order_example =
    deliver_in_order quiet ok 0 two_packs block
      (all_delivered quiet ok 0 two_packs block small_ring-IsValid refl two_packs-Expected
        two_packs_fit).0
      small_ring-IsValid
      (all_delivered quiet ok 0 two_packs block small_ring-IsValid refl two_packs-Expected
        two_packs_fit).1

-- Between 7 and 9.
insert_lem_example :
    IsSorted (insert (received 8 [] 0) (received 7 [] 0 ∷ received 9 [] 0 ∷ []))
    × ((s : ℕ)
        → find s (insert (received 8 [] 0) (received 7 [] 0 ∷ received 9 [] 0 ∷ []))
          ≡ or_else
              (find s (received 7 [] 0 ∷ received 9 [] 0 ∷ []))
              (find s (received 8 [] 0 ∷ [])))
insert_lem_example =
    insert_lem (received 8 [] 0) (received 7 [] 0 ∷ received 9 [] 0 ∷ [])
      ((omega arith, tt), (tt, tt))

-- The peer's FIN takes the connection to CLOSE_WAIT.
abbrev fin_pack : WcbReceivedPack
fin_pack = record { header = header 7 Flag.fin 0; data_bytes = []; from = peer }

abbrev peer_closed : Wcb
peer_closed = record block {
  state = close_wait;
  r_flag = record (block.r_flag) { remote_fin_received = true; remote_fin_read_by_user = false };
  rcv_info = record (block.rcv_info) { next = 8 };
  snd_info = record (block.snd_info) { dsn = 13 };
  s_sending_standby = control 12 Flag.ack ∷ [];
}

delivers_fin : deliver quiet ok 0 (fin_pack ∷ []) block ≡ some peer_closed
unfolding deliver deliver_one deliver_data deliver_rst deliver_syn deliver_ack deliver_fin finack
    enqueue test_flag
delivers_fin = refl

deliver-Reaches_example : Reaches established close_wait
deliver-Reaches_example = deliver-Reaches quiet ok 0 (fin_pack ∷ []) block peer_closed delivers_fin

deliver-phase_example : phase established ≤ phase close_wait
deliver-phase_example = deliver-phase quiet ok 0 (fin_pack ∷ []) block peer_closed delivers_fin
