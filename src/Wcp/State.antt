-- ===== src/Wcp/State.antt =====
-- The life of a control block: `WCB::update`, `connect`, `shutdown`, `close` and `listen` of
-- src/net/wcp.cpp, and `init` and the buffer sizes of include/wawo/net/wcp.hpp.
pub mod Close
use wawo.Prelude.{
  ℕ, ◌+◌, ◌-◌, ◌*◌, ◌/◌, ◌%◌, ◌^◌, Bool, true, false, Option, none, some, List, [], ◌∷◌, leb, ltb,
  if◌then◌else◌, ◌==◌, not, ◌&&◌, ◌||◌, assert, ◌>>=◌, ◌>>◌, length,
}
use wawo.RingBuffer
use wawo.RingBuffer.{BytesRingbuffer}
use wawo.Wcp.Pack.{Address, wcp_mtu}
use wawo.Wcp.Types.{
  Wcb, WcbSndInfo, WcbRcvInfo, WcbFlag, ReadFlag, WriteFlag, WcbKeepaliveVals, Errno, ok, is_ok,
  e_etimeout, e_econnaborted, e_enotconn, e_ealready, e_eopnotsupp, e_einprogress,
  e_invalid_operation, WcbState, closed, listen, syning, syn_sent, syn_received, fin_wait_1,
  closing, fin_wait_2, established, close_wait, time_wait, last_ack, recycle, sub64, wawo_min,
  wawo_max, wcp_rto_init, wcp_rcv_wnd_default, wcp_snd_ssthresh_max, wcp_iw, wcp_rcv_buffer_max,
  wcp_rcv_buffer_min, wcp_syn_max_time, wcp_fin_max_time, wcp_timewait_max_time,
  wcp_last_ack_max_time,
}
use wawo.Wcp.Queue.{syn, fin}
use wawo.Wcp.Recv.{check_recv}
use wawo.Wcp.Flights.{check_flights}
use wawo.Wcp.Send.{check_send, Rounds, done, out_of_fuel}

-- The fields that `WCB::init` sets, at the time `now`; those that it does not set are 0.
abbrev pub initial : BytesRingbuffer → ℕ → Wcb
initial ring now = record {
  state = closed;
  timer_state = 0;
  wcb_errno = ok;
  nonblock = false;
  wcb_flag = record {
    snd_biggest_sack_update = false;
    snd_una_update = false;
    snd_fast_recovered = false;
    snd_cwnd_slow_start = true;
    snd_cwnd_congest_avoidance = false;
    snd_lost_detected = false;
    is_listener = false;
    is_passive_open = false;
    first_rtt_done = false;
    closed_called = false;
  };
  r_flag = record {
    rwnd_less_than_mtu = false;
    rwnd_more_than_mtu = false;
    remote_fin_received = false;
    remote_fin_read_by_user = false;
    local_read_shutdowned = false;
    recv_error = false;
  };
  s_flag = record { local_fin_sent = false; local_write_shutdowned = false; send_error = false };
  local_addr = none;
  remote_addr = none;
  rto = wcp_rto_init;
  srtt = 0;
  rttvar = 0;
  received_vec_standby = [];
  rcv_info = record { wnd = wcp_rcv_wnd_default; next = 0 };
  rcv_received = [];
  rb = ring;
  rb_standby = ring;
  r_timer_last_rwnd_update = 0;
  backlog_size = 128;
  snd_biggest_ack = 0;
  snd_lost_detected_timer = 0;
  snd_lost_biggest_seq = 0;
  snd_lost_cwnd_for_fast_recovery_compensation = 0;
  snd_lost_bigger_than_lost_seq_time = 0;
  snd_timer_cwnd_congest_avoidance = 0;
  snd_info = record {
    dsn = 0;
    next = 0;
    una = 0;
    ssthresh = wcp_snd_ssthresh_max;
    cwnd = wcp_iw * wcp_mtu;
    rwnd = wcp_rcv_wnd_default;
  };
  snd_sending = [];
  snd_nflight_bytes = 0;
  snd_nflight_bytes_max = 0;
  snd_flights = [];
  snd_last_rto_timer = 0;
  snd_sacked_pack_tmp = [];
  sb = ring;
  s_sending_standby = [];
  s_sending_ignore_seq_space = [];
  keepalive_timer_last_received_pack = now;
  keepalive_vals = record { idle = 60; interval = 60; probes = 5 };
  keepalive_probes_sent = 0;
  outp = [];
}

-- `WCB::init`.
unfoldable pub init : ℕ → Option Wcb
init now = RingBuffer.init wcp_rcv_wnd_default >>= λ ring. some (initial ring now)

-- A requested buffer size, within the limits.
abbrev pub buffer_size : ℕ → ℕ
buffer_size size = wawo_max (wawo_min size wcp_rcv_buffer_max) wcp_rcv_buffer_min

abbrev pub is_closed : WcbState → Bool
is_closed closed = true
is_closed _ = false

-- `set_rcv_buffer_size`: the rings get twice the size.
unfoldable pub set_rcv_buffer_size : ℕ → Wcb → Option (Errno × Wcb)
set_rcv_buffer_size size w =
    let resized = do
      assert (RingBuffer.count w.rb == 0)
      rb ← RingBuffer.init (buffer_size size * 2)
      assert (RingBuffer.count w.rb_standby == 0)
      some (
        ok,
        record w {
          rb = rb;
          rb_standby = rb;
          rcv_info = record (w.rcv_info) { wnd = RingBuffer.capacity rb };
        },
      )
    in if is_closed w.state then resized else some (e_invalid_operation, w)

unfoldable pub set_snd_buffer_size : ℕ → Wcb → Option (Errno × Wcb)
set_snd_buffer_size size w =
    let resized = do
      assert (RingBuffer.count w.sb == 0)
      sb ← RingBuffer.init (buffer_size size * 2)
      some (ok, record w { sb = sb })
    in if is_closed w.state then resized else some (e_invalid_operation, w)

-- One `update`: the world answers through `net` and `connectrt`.
module _ (net : ℕ → Errno) (connectrt : Errno) (fuel : ℕ) (now : ℕ) where
  -- `check_recv`, `check_flights` and `check_send` in turn.
  unfoldable pub check_all : Wcb → Option Rounds
  check_all w =
      check_recv net connectrt now w >>= λ w1. check_flights net now w1 >>= check_send net fuel now

  abbrev pub close_state : Wcb → Option Rounds
  close_state w = some (done (record w { state = closed }))

  -- The state closes on an error, or some time after `timer_state`; else everything is checked.
  abbrev pub check_unless : Bool → Wcb → Option Rounds
  check_unless over w = if over then close_state w else check_all w

  -- LAST_ACK: the test stands behind the checks.
  abbrev pub close_late : Rounds → Rounds
  close_late out_of_fuel = out_of_fuel
  close_late (done w) =
      if not (is_ok w.wcb_errno) || leb wcp_last_ack_max_time (sub64 now w.timer_state)
      then done (record w { state = closed })
      else done w

  -- All states but LISTEN, which serves a list of other blocks.
  unfoldable pub update : Wcb → Option Rounds
  update w =
      let elapsed = sub64 now w.timer_state in
      let failed = not (is_ok w.wcb_errno) in
      let timeout : Option Rounds =
        some (done (record w { state = closed; wcb_errno = e_etimeout })) in
      let recycled : Option Rounds =
        if (w.r_flag.local_read_shutdowned && w.s_flag.local_write_shutdowned)
          && w.wcb_flag.closed_called
        then some (done (record w { state = recycle }))
        else some (done w) in
      let waited : Option Rounds =
        if leb wcp_timewait_max_time elapsed then close_state w else some (done w) in
      elim w.state [
        | closed ↦ recycled
        | listen ↦ none
        | syning ↦ check_flights net now w >>= check_send net fuel now
        | syn_sent ↦ if leb wcp_syn_max_time elapsed then timeout else check_all w
        | syn_received ↦ check_unless failed w
        | established ↦ check_unless failed w
        | close_wait ↦ check_unless failed w
        | fin_wait_1 ↦ check_unless (failed || leb wcp_fin_max_time elapsed) w
        | closing ↦ check_unless (failed || leb wcp_fin_max_time elapsed) w
        | fin_wait_2 ↦ check_unless (failed || leb wcp_fin_max_time elapsed) w
        | last_ack ↦ check_all w >>= λ r. some (close_late r)
        | time_wait ↦ waited
        | recycle ↦ some (done w)
      ]

-- `WCB::connect` up to the wait of a blocking socket, where it has no answer yet (`none` inside).
unfoldable pub connect : Address → ℕ → Wcb → Option (Option Errno × Wcb)
connect addr now w =
    let opened = record (syn (record w { remote_addr = some addr })) {
      state = syning;
      timer_state = now;
    } in
    elim w.remote_addr [
      | some _ ↦ none
      | none ↦ elim w.state [
        | closed ↦ some (if w.nonblock then some e_einprogress else none, opened)
        | _ ↦ none
      ]
    ]

-- `shutdown_flag`: WCB_SHUT_RD, WCB_SHUT_WR and WCB_SHUT_RDWR.
pub data ShutdownFlag : Type 0 where
  shut_rd shut_wr shut_rdwr : ShutdownFlag

abbrev pub shuts_write : ShutdownFlag → Bool
shuts_write shut_rd = false
shuts_write _ = true

abbrev pub shuts_read : ShutdownFlag → Bool
shuts_read shut_wr = false
shuts_read _ = true

abbrev pub shut_write : Wcb → Wcb
shut_write w = record (fin w) { s_flag = record (w.s_flag) { local_write_shutdowned = true } }

abbrev pub shut_read : Wcb → Wcb
shut_read w = record w { r_flag = record (w.r_flag) { local_read_shutdowned = true } }

-- `ok`, or E_ENOTCONN where the code returns -1 and sets it as the last error.
unfoldable pub shutdown : ShutdownFlag → Wcb → Errno × Wcb
shutdown flag w =
    let write = shuts_write flag && not w.s_flag.local_write_shutdowned in
    let read = shuts_read flag && not w.r_flag.local_read_shutdowned in
    let w1 = if write then shut_write w else w in
    let w2 = if read then shut_read w1 else w1 in (if write || read then ok else e_enotconn, w2)

-- The test of `close` in its words: the name of an enumerator stands where `state == ` is missing,
-- and counts as true.
abbrev pub enumerator_as_bool : WcbState → Bool
enumerator_as_bool closed = false
enumerator_as_bool _ = true

abbrev pub is_state : WcbState → WcbState → Bool
is_state closed closed = true
is_state listen listen = true
is_state syning syning = true
is_state syn_sent syn_sent = true
is_state established established = true
is_state close_wait close_wait = true
is_state _ _ = false

-- What `close` does from the states of an open connection.
abbrev pub close_open : Wcb → Wcb
close_open w =
    let w1 = if w.s_flag.local_write_shutdowned then w else shut_write w in
    record w1 { r_flag = record (w.r_flag) { local_read_shutdowned = true } }

unfoldable pub close : Wcb → Option (Errno × Wcb)
close w =
    let called = record w { wcb_flag = record (w.wcb_flag) { closed_called = true } } in
    let w1 = if is_state w.state listen then record called { state = closed } else called in
    let w2 =
      if (is_state w1.state syn_sent || is_state w1.state syning) || enumerator_as_bool syn_received
      then record w1 {
        state = closed;
        wcb_errno = if is_ok w1.wcb_errno then e_econnaborted else w1.wcb_errno;
      }
      else w1 in
    let shut = record w2 {
      s_flag = record (w2.s_flag) { local_write_shutdowned = true };
      r_flag = record (w2.r_flag) { local_read_shutdowned = true };
    } in
    if w.wcb_flag.closed_called
    then some (e_ealready, w)
    else (if is_state w2.state closed
        then some (ok, shut)
        else (if is_state w2.state established || is_state w2.state close_wait
            then some (ok, close_open w2)
            else none))

-- `WCB::listen`.
unfoldable pub listen_on : ℕ → Wcb → Option (Errno × Wcb)
listen_on backlog w = elim w.local_addr [
  | none ↦ some (e_eopnotsupp, w)
  | some _ ↦ elim w.state [
    | closed ↦ some (
      ok,
      record w {
        state = listen;
        backlog_size = backlog;
        wcb_flag = record (w.wcb_flag) { is_listener = true };
      },
    )
    | _ ↦ none
  ]
]
