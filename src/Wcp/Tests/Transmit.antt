-- ===== src/Wcp/Tests/Transmit.antt =====
-- Sending, at concrete values.
use wawo.Prelude.{◌≡◌, ◌+◌, ◌≤◌, refl, ℕ, List, ◌++◌, true, false, none, some, [], ◌∷◌, arith, ◌⊎◌}
use wawo.Wcp.Flag
use wawo.Wcp.Flag.{test_flag}
use wawo.Wcp.Pack.{WcbPack, pack_to_udpmessage, pack_from_udpmessage}
use wawo.Wcp.Pack.Codec.{IsSendable, message, from-to_udpmessage}
use wawo.Wcp.Pump.{datagram, pump_packs, recv_pack}
use wawo.Wcp.Pump.Packs.{all_arrived, arrived, pump_packs-recv_pack}
use wawo.Wcp.Types.{Wcb, wcp_snd_cwnd_max, ok, e_socket_recv_block}
use wawo.Wcp.Queue.{control}
use wawo.Wcp.Rtt.{handle_pack_acked, rtt_sample, check_cwnd, grow_cwnd, sample_rtt, clamp_rto}
use wawo.Wcp.Rtt.Bounds.{acked, RtoInRange, handle_pack_acked_lem}
use wawo.Wcp.Recv.{ack_all}
use wawo.Wcp.Flights.{check_flights, scan_flights, after_scan}
use wawo.Wcp.Send.{proceed, leave, send_loop, send_rounds}
use wawo.Wcp.Send.Fin.{FinIsDue, FinStays, fin_asserts}
use wawo.Wcp.Send.Flight.{flight_bytes, FlightOk}
use wawo.Wcp.Send.Flight.Acked.{ack_all_lem}
use wawo.Wcp.Send.Flight.Survives.{Survive, check_flights_lem}
use wawo.Wcp.Send.Flight.ScanReturns.{check_flights_returns}
use wawo.Wcp.Send.Flight.Sent.{SentOk}
use wawo.Wcp.Send.Flight.Log.{Flown}
use wawo.Wcp.Send.Flight.Handed.{send_loop_lem}
use wawo.Wcp.Send.Flight.Returns.{IsDataPack, send_loop_returns}
use wawo.Wcp.Tests.{block, quiet, peer, outgoing}

abbrev sent_pack : WcbPack
sent_pack = outgoing 11 (1 ∷ 2 ∷ 3 ∷ []) 3

sent_pack-IsSendable : IsSendable sent_pack
sent_pack-IsSendable = record {
  seq_fits = omega arith;
  ack_fits = omega arith;
  wnd_fits = omega arith;
  flag_fits = omega arith;
  dlen_exact = refl;
  dlen_fits = omega arith;
}

from-to_udpmessage_example :
    (pack_to_udpmessage sent_pack ≡ some (message sent_pack.header (1 ∷ 2 ∷ 3 ∷ [])))
    × (pack_from_udpmessage (message sent_pack.header (1 ∷ 2 ∷ 3 ∷ [])) peer
        ≡ some (record { header = sent_pack.header; data_bytes = 1 ∷ 2 ∷ 3 ∷ []; from = peer }))
from-to_udpmessage_example = from-to_udpmessage sent_pack peer sent_pack-IsSendable

-- The datagram of `sent_pack`.
abbrev sent_bytes : List ℕ
sent_bytes = message sent_pack.header (1 ∷ 2 ∷ 3 ∷ [])

pump_packs-recv_pack_example :
    (pump_packs ((sent_bytes, peer) ∷ []) e_socket_recv_block block
      ≡ some (record block {
        received_vec_standby = block.received_vec_standby ++ all_arrived peer (sent_pack ∷ []);
      }))
    × (recv_pack (datagram sent_bytes peer) ≡ some (ok, some (arrived peer sent_pack)))
pump_packs-recv_pack_example =
    pump_packs-recv_pack (sent_pack ∷ []) ((sent_bytes, peer) ∷ []) sent_pack sent_bytes peer block
      ((sent_pack-IsSendable, from-to_udpmessage_example.0, refl), tt) sent_pack-IsSendable
      from-to_udpmessage_example.0

-- The block with one pack on the flight, which is acknowledged.
abbrev flying : Wcb
flying = record block {
  snd_flights = sent_pack ∷ [];
  snd_nflight_bytes = 19;
  snd_nflight_bytes_max = 19;
  snd_info = record (block.snd_info) { next = 12; una = 12 };
  wcb_flag = record (block.wcb_flag) { snd_una_update = true; first_rtt_done = true };
}

flying-FlightOk : FlightOk flying
unfolding flight_bytes
flying-FlightOk = record { balanced = refl; below = omega arith; window = omega arith }

block-FlightOk : FlightOk block
unfolding flight_bytes
block-FlightOk = record { balanced = refl; below = omega arith; window = omega arith }

flying-RtoInRange : RtoInRange flying
flying-RtoInRange = record { rto_low = omega arith; rto_high = omega arith }

handle_pack_acked_lem_example :
    (handle_pack_acked sent_pack 30 flying ≡ some (acked sent_pack 30 flying))
    × ((acked sent_pack 30 flying).snd_nflight_bytes + 19 ≡ 19)
    × ((acked sent_pack 30 flying).snd_info.cwnd ≤ wcp_snd_cwnd_max)
    × RtoInRange (acked sent_pack 30 flying)
handle_pack_acked_lem_example =
    handle_pack_acked_lem sent_pack 30 flying (omega arith) flying-RtoInRange

-- The number arrives twice.
ack_all_lem_example :
    (u : Wcb) × (ack_all 30 (12 ∷ 12 ∷ []) flying ≡ some u) × FlightOk u × RtoInRange u
ack_all_lem_example = ack_all_lem 30 (12 ∷ 12 ∷ []) flying flying-FlightOk flying-RtoInRange

abbrev scanned : Wcb
scanned =
    let w = acked sent_pack 30 (record flying { snd_last_rto_timer = 30 }) in
    record w {
      snd_flights = [];
      wcb_flag = record (w.wcb_flag) {
        snd_biggest_sack_update = false;
        snd_una_update = false;
        snd_fast_recovered = false;
      };
    }

check_flights-flying : check_flights quiet 30 flying ≡ some scanned
unfolding check_flights scan_flights after_scan handle_pack_acked rtt_sample check_cwnd grow_cwnd
    sample_rtt clamp_rto
check_flights-flying = refl

check_flights_lem_example : FlightOk scanned × RtoInRange scanned × Survive quiet 30 flying scanned
check_flights_lem_example =
    check_flights_lem quiet 30 flying scanned flying-FlightOk flying-RtoInRange check_flights-flying

check_flights_returns_example :
    (u : Wcb) × (check_flights quiet 30 flying ≡ some u) × FlightOk u × RtoInRange u
check_flights_returns_example =
    check_flights_returns quiet 30 peer flying flying-FlightOk flying-RtoInRange refl (omega arith)
      (omega arith, tt)

sent_pack-IsDataPack : IsDataPack sent_pack
unfolding test_flag
sent_pack-IsDataPack = record {
  fits = omega arith;
  no_sack = refl;
  no_probe = refl;
  no_reply = refl;
  no_fin = refl;
  no_syn = refl;
}

send_loop_returns_example :
    (u : Wcb) × ((send_loop quiet 30 (sent_pack ∷ []) block ≡ some (proceed u))
      ⊎ (send_loop quiet 30 (sent_pack ∷ []) block ≡ some (leave u)))
    × SentOk block u
send_loop_returns_example =
    send_loop_returns quiet 30 (sent_pack ∷ []) block peer refl (omega arith)
      (sent_pack-IsDataPack, refl, omega arith, tt) block-FlightOk (omega arith, tt)

-- The state that the loop leaves.
looped :
    (u : Wcb) × ((send_loop quiet 30 (sent_pack ∷ []) block ≡ some (proceed u))
      ⊎ (send_loop quiet 30 (sent_pack ∷ []) block ≡ some (leave u)))
    × SentOk block u
looped =
    send_loop_returns quiet 30 (sent_pack ∷ []) block peer refl (omega arith)
      (sent_pack-IsDataPack, refl, omega arith, tt) block-FlightOk (omega arith, tt)

send_loop_lem_example : SentOk block looped.0 × Flown quiet (sent_pack ∷ []) block looped.0
send_loop_lem_example =
    send_loop_lem quiet 30 (sent_pack ∷ []) block looped.0 block-FlightOk (omega arith, tt) looped.1

abbrev closing_block : Wcb
closing_block = record block { snd_sending = control 11 Flag.fin ∷ [] }

fin_due : FinIsDue quiet (control 11 Flag.fin) peer closing_block
unfolding test_flag
fin_due = record {
  has_fin = refl;
  no_sack = refl;
  no_probe = refl;
  no_reply = refl;
  no_data = refl;
  no_length = refl;
  is_next = refl;
  in_order = omega arith;
  word = omega arith;
  small = omega arith;
  room_cwnd = omega arith;
  room_rwnd = omega arith;
  opened = refl;
  peer = refl;
  taken = refl;
}

fin_asserts_example :
    FinStays quiet 30 (control 11 Flag.fin) [] peer closing_block
    × (send_rounds quiet 30 5 closing_block ≡ none)
fin_asserts_example =
    fin_asserts quiet 30 3 (control 11 Flag.fin) [] peer closing_block refl fin_due
