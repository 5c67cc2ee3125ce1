-- ===== src/Wcp/Send.antt =====
-- `WCB::check_send` of src/net/wcp.cpp: the packs that wait go out while the windows allow it, and the
-- user's bytes are cut into packs.
pub mod Fin
pub mod Flight
use wawo.Prelude.{
  ℕ, zero, suc, ◌+◌, ◌-◌, ◌*◌, ◌/◌, ◌%◌, ◌^◌, Bool, true, false, Option, none, some, List, [], ◌∷◌,
  ◌++◌, leb, ltb, if◌then◌else◌, ◌==◌, not, ◌&&◌, ◌||◌, assert, ◌>>=◌, ◌>>◌, length,
}
use wawo.Prelude.Words.{add32, sub32}
use wawo.RingBuffer
use wawo.Wcp.Flag
use wawo.Wcp.Flag.{test_flag}
use wawo.Wcp.Pack.{WcbPack, WcpHeader, wcp_mtu, wcp_mdu}
use wawo.Wcp.Types.{
  Wcb, WcbSndInfo, WriteFlag, Errno, is_ok, WcbState, syning, syn_sent, syn_received, established,
  close_wait, fin_wait_1, last_ack, sub64, wawo_min, wcp_rwnd_check_granularity,
}
use wawo.Wcp.Rtt.{ntotal_bytes}
use wawo.Wcp.Net.{send_pack, stamped}
use wawo.Wcp.Flights.{send_failed}
use wawo.Wcp.Queue.{update_rwnd}

-- How a part of the function ends: `proceed` at its end, `leave` by a return.
pub data Progress : Type 0 where
  proceed : Wcb → Progress
  leave : Wcb → Progress

-- The bit WCP_FLAG_WND is set.
abbrev pub with_wnd : WcbPack → WcbPack
with_wnd p = record p {
  header = record (p.header) {
    flag = if test_flag p.header.flag Flag.wnd then p.header.flag else p.header.flag + Flag.wnd;
  };
}

abbrev pub mark_front : List WcbPack → Wcb → Wcb
mark_front [] w = update_rwnd w
mark_front (p ∷ ps) w = record w { s_sending_ignore_seq_space = with_wnd p ∷ ps }

-- The reader has made room: the peer is told, at most once in a while.
unfoldable pub tell_rwnd : ℕ → Wcb → Wcb
tell_rwnd now w =
    if w.r_flag.rwnd_more_than_mtu
      && ltb wcp_rwnd_check_granularity (sub64 now w.r_timer_last_rwnd_update)
    then record (mark_front w.s_sending_ignore_seq_space w) { r_timer_last_rwnd_update = now }
    else w

-- The state after a pack with the flag FIN went out.
unfoldable pub fin_sent : ℕ → Wcb → Option Wcb
fin_sent now w = elim w.state [
  | established ↦ some (record w {
    timer_state = now;
    state = fin_wait_1;
    s_flag = record (w.s_flag) { local_fin_sent = true };
  })
  | close_wait ↦ some (record w { state = last_ack; timer_state = now })
  | _ ↦ none
]

-- And after one with the flag SYN.
unfoldable pub syn_out : Wcb → Option Wcb
syn_out w = elim w.state [
  | syning ↦ some (record w { state = syn_sent })
  | syn_received ↦ some w
  | _ ↦ none
]

-- A pack that was sent is on the flight.
unfoldable pub take_off : ℕ → WcbPack → Wcb → Wcb
take_off now p w =
    let nflight = add32 w.snd_nflight_bytes (ntotal_bytes p) in
    record w {
      snd_flights = w.snd_flights ++ record p { sent_ts = now; sent_times = 1 } ∷ [];
      snd_nflight_bytes = nflight;
      snd_nflight_bytes_max =
          if ltb w.snd_nflight_bytes_max nflight then nflight else w.snd_nflight_bytes_max;
      snd_info = record (w.snd_info) { next = add32 w.snd_info.next 1 };
    }

-- Whether a pack has to wait.
unfoldable pub congested : WcbPack → Wcb → Bool
congested p w =
    leb (wawo_min w.snd_info.cwnd w.snd_info.rwnd) (add32 (ntotal_bytes p) w.snd_nflight_bytes)

module _ (net : ℕ → Errno) (now : ℕ) where
  -- The packs outside the sequence go first, whatever the windows.
  unfoldable pub send_ignore_seq : List WcbPack → Wcb → Option Progress
  send_ignore_seq [] w = some (proceed (record w { s_sending_ignore_seq_space = [] }))
  send_ignore_seq (p ∷ ps) w = send_pack net p w >>= λ (ec, w').
      let rest = send_ignore_seq ps w' in
      if is_ok ec
      then rest
      else some
          (leave (record (send_failed ec w') { s_sending_ignore_seq_space = stamped net p w ∷ ps }))

  -- The loop at `_begin_send`. A pack with the flag FIN leaves the loop before `pop`.
  unfoldable pub send_loop : List WcbPack → Wcb → Option Progress
  send_loop [] w = some (proceed (record w { snd_sending = [] }))
  send_loop (p ∷ ps) w =
      let flag = p.header.flag in
      let out = stamped net p w in
      let sent = send_pack net p w >>= λ (ec, w1).
      let w2 = take_off now out w1 in
      let popped = send_loop ps w2 in
      let syn_popped = syn_out w2 >>= send_loop ps in
      let flown =
        assert (
          not (
            test_flag flag Flag.sack
            || test_flag flag Flag.keep_alive
            || test_flag flag Flag.keep_alive_reply))
        >> (if test_flag flag Flag.fin
            then (fin_sent now w2 >>= λ w3. some (
                proceed
                  (record w3 { snd_sending = record out { sent_ts = now; sent_times = 1 } ∷ ps })))
            else (if test_flag flag Flag.syn then syn_popped else popped)) in
      if is_ok ec
      then flown
      else some (leave (record (send_failed ec w1) { snd_sending = out ∷ ps })) in
      if congested p w
      then some (leave (record w { snd_sending = p ∷ ps }))
      else (assert (p.header.seq == w.snd_info.next)
          >> (assert (leb w.snd_info.una p.header.seq) >> sent))

-- A pack with data, not sent yet.
abbrev pub data_pack : ℕ → List ℕ → ℕ → WcbPack
data_pack seq bytes nread = record {
  header = record {
    seq = seq;
    ack = 0;
    wnd = 0;
    flag = Flag.dat + Flag.ack;
    dlen = nread % 2 ^ 16;
  };
  data_bytes = bytes;
  sent_ts = 0;
  sent_times = 0;
}

-- The loop that cuts packs from `sb`; the number is `nmax_try_bytes`, which wraps below 0. Every
-- round reads a byte at least, so the count of `sb` bounds the rounds: the first argument.
unfoldable pub cut_packs : ℕ → ℕ → Wcb → Option Wcb
cut_packs zero nmax w = some w
cut_packs (suc fuel) nmax w =
    let round = RingBuffer.read wcp_mdu true w.sb >>= λ (nread, bytes, sb').
    cut_packs fuel (sub32 nmax nread) (record w {
      snd_info = record (w.snd_info) { dsn = add32 w.snd_info.dsn 1 };
      sb = sb';
      snd_sending = w.snd_sending ++ data_pack w.snd_info.dsn bytes nread ∷ [];
    }) in
    if ltb 0 (RingBuffer.count w.sb) && ltb 0 nmax then round else some w

-- What waits moves up, and the user's bytes behind it.
unfoldable pub refill : Wcb → Option Wcb
refill w =
    let w1 = record w {
      snd_sending = w.snd_sending ++ w.s_sending_standby;
      s_sending_standby = [];
    } in
    let nmax_try_bytes = sub32 w1.snd_info.cwnd w1.snd_nflight_bytes in
    if not w1.s_flag.local_fin_sent && ltb wcp_mtu nmax_try_bytes
    then cut_packs (RingBuffer.count w1.sb) nmax_try_bytes w1
    else some w1

-- Why the rounds from `_begin_send` on end.
pub data Rounds : Type 0 where
  done : Wcb → Rounds
  out_of_fuel : Rounds

unfoldable pub send_rounds : (ℕ → Errno) → ℕ → ℕ → Wcb → Option Rounds
send_rounds net now zero w = some out_of_fuel
send_rounds net now (suc fuel) w = send_loop net now w.snd_sending w >>= elim [
  | leave w' ↦ some (done w')
  | proceed w' ↦ refill w' >>= λ w''.
      let again = send_rounds net now fuel w'' in
      if length w''.snd_sending == 0 then some (done w'') else again
]

-- With `fuel` rounds at most.
unfoldable pub check_send : (ℕ → Errno) → ℕ → ℕ → Wcb → Option Rounds
check_send net fuel now w =
    let w1 = tell_rwnd now w in
    let sending =
      send_ignore_seq net now w1.s_sending_ignore_seq_space w1
      >>= elim [ leave w' ↦ some (done w') | proceed w' ↦ send_rounds net now fuel w' ] in
    if w.s_flag.send_error then some (done w) else sending
