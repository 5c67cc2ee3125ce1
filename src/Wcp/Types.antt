-- ===== src/Wcp/Types.antt =====
-- The control block of a WCP connection: `struct WCB` of include/wawo/net/wcp.hpp with its flag words,
-- one Boolean to a bit, and the constants that its functions use.
use wawo.Prelude.{ℕ, ◌-◌, ◌*◌, ◌/◌, Bool, true, false, Option, List, ltb, if◌then◌else◌}
pub use wawo.Prelude.Words.{sub64}
use wawo.RingBuffer.{BytesRingbuffer}
use wawo.Wcp.Pack.{Address, WcbPack, WcbReceivedPack, wcp_mtu, wcp_mdu}

-- The codes of include/wawo/constants.h and of the system calls.
pub data Errno : Type 0 where
  ok e_socket_send_block e_socket_recv_block e_etimeout e_econnaborted e_econnreset : Errno
  e_enotconn e_ealready e_eopnotsupp e_ebadf e_ewouldblock e_einprogress : Errno
  e_invalid_operation e_emfile e_eaddrinuse : Errno
  other : ℕ → Errno

-- `ec == wawo::OK`.
abbrev pub is_ok : Errno → Bool
is_ok ok = true
is_ok _ = false

abbrev pub is_send_block : Errno → Bool
is_send_block e_socket_send_block = true
is_send_block _ = false

pub data WcbState : Type 0 where
  closed listen syning syn_sent syn_received fin_wait_1 closing fin_wait_2 : WcbState
  established close_wait time_wait last_ack recycle : WcbState

abbrev pub wcp_rcv_buffer_max : ℕ
wcp_rcv_buffer_max = 1024 * 1024

abbrev pub wcp_rcv_buffer_min : ℕ
wcp_rcv_buffer_min = wcp_mdu * 4

abbrev pub wcp_rcv_wnd_default : ℕ
wcp_rcv_wnd_default = 64 * 1024

abbrev pub wcp_snd_ssthresh_max : ℕ
wcp_snd_ssthresh_max = 1024 * 1024 * 2

abbrev pub wcp_snd_ssthresh_min : ℕ
wcp_snd_ssthresh_min = 4 * wcp_mtu

abbrev pub wcp_snd_cwnd_max : ℕ
wcp_snd_cwnd_max = wcp_snd_ssthresh_max * 4

abbrev pub wcp_rwnd_check_granularity : ℕ
wcp_rwnd_check_granularity = 1000

-- `(1/8)` and `(1/4)` divide integers.
abbrev pub wcp_srtt_alpha : ℕ
wcp_srtt_alpha = 1 / 8

abbrev pub wcp_rttvar_beta : ℕ
wcp_rttvar_beta = 1 / 4

abbrev pub wcp_rto_clock_granularity : ℕ
wcp_rto_clock_granularity = 5

abbrev pub wcp_rto_init : ℕ
wcp_rto_init = 1000

abbrev pub wcp_rto_min : ℕ
wcp_rto_min = 100

abbrev pub wcp_rto_max : ℕ
wcp_rto_max = 60 * 1000

abbrev pub wcp_lost_threshold : ℕ
wcp_lost_threshold = 3

abbrev pub wcp_syn_max_time : ℕ
wcp_syn_max_time = 30 * 1000

abbrev pub wcp_fin_max_time : ℕ
wcp_fin_max_time = 2 * 60 * 1000

abbrev pub wcp_timewait_max_time : ℕ
wcp_timewait_max_time = 2 * 60 * 1000

abbrev pub wcp_last_ack_max_time : ℕ
wcp_last_ack_max_time = 30 * 1000

abbrev pub wcp_iw : ℕ
wcp_iw = 10

abbrev pub wcp_lw : ℕ
wcp_lw = 5

-- `WCB_flag`, `READ_flag` and `WRITE_flag`.
pub record WcbFlag : Type 0 where
  pub snd_biggest_sack_update : Bool
  pub snd_una_update : Bool
  pub snd_fast_recovered : Bool
  pub snd_cwnd_slow_start : Bool
  pub snd_cwnd_congest_avoidance : Bool
  pub snd_lost_detected : Bool
  pub is_listener : Bool
  pub is_passive_open : Bool
  pub first_rtt_done : Bool
  pub closed_called : Bool

pub record ReadFlag : Type 0 where
  pub rwnd_less_than_mtu : Bool
  pub rwnd_more_than_mtu : Bool
  pub remote_fin_received : Bool
  pub remote_fin_read_by_user : Bool
  pub local_read_shutdowned : Bool
  pub recv_error : Bool

pub record WriteFlag : Type 0 where
  pub local_fin_sent : Bool
  pub local_write_shutdowned : Bool
  pub send_error : Bool

pub record WcbSndInfo : Type 0 where
  pub dsn : ℕ
  pub next : ℕ
  pub una : ℕ
  pub ssthresh : ℕ
  pub cwnd : ℕ
  pub rwnd : ℕ

pub record WcbRcvInfo : Type 0 where
  pub wnd : ℕ
  pub next : ℕ

pub record WcbKeepaliveVals : Type 0 where
  pub idle : ℕ
  pub interval : ℕ
  pub probes : ℕ

-- `outp` is what was handed to `sendto`, latest first; its length numbers the attempts.
-- `snd_sacked_pack_tmp` is that packet's bytes. A list that stands for a queue has its front first.
pub record Wcb : Type 0 where
  pub state : WcbState
  pub timer_state : ℕ
  pub wcb_errno : Errno
  pub nonblock : Bool
  pub wcb_flag : WcbFlag
  pub r_flag : ReadFlag
  pub s_flag : WriteFlag
  pub local_addr : Option Address
  pub remote_addr : Option Address
  pub rto : ℕ
  pub srtt : ℕ
  pub rttvar : ℕ
  pub received_vec_standby : List WcbReceivedPack
  pub rcv_info : WcbRcvInfo
  pub rcv_received : List WcbReceivedPack
  pub rb : BytesRingbuffer
  pub rb_standby : BytesRingbuffer
  pub r_timer_last_rwnd_update : ℕ
  pub backlog_size : ℕ
  pub snd_biggest_ack : ℕ
  pub snd_lost_detected_timer : ℕ
  pub snd_lost_biggest_seq : ℕ
  pub snd_lost_cwnd_for_fast_recovery_compensation : ℕ
  pub snd_lost_bigger_than_lost_seq_time : ℕ
  pub snd_timer_cwnd_congest_avoidance : ℕ
  pub snd_info : WcbSndInfo
  pub snd_sending : List WcbPack
  pub snd_nflight_bytes : ℕ
  pub snd_nflight_bytes_max : ℕ
  pub snd_flights : List WcbPack
  pub snd_last_rto_timer : ℕ
  pub snd_sacked_pack_tmp : List ℕ
  pub sb : BytesRingbuffer
  pub s_sending_standby : List WcbPack
  pub s_sending_ignore_seq_space : List WcbPack
  pub keepalive_timer_last_received_pack : ℕ
  pub keepalive_vals : WcbKeepaliveVals
  pub keepalive_probes_sent : ℕ
  pub outp : List (List ℕ × Address)

-- `WAWO_MIN`, `WAWO_MAX`, `WAWO_ABS2`.
abbrev pub wawo_min : ℕ → ℕ → ℕ
wawo_min a b = if ltb b a then b else a

abbrev pub wawo_max : ℕ → ℕ → ℕ
wawo_max a b = if ltb b a then a else b

abbrev pub wawo_abs2 : ℕ → ℕ → ℕ
wawo_abs2 a b = if ltb b a then a - b else b - a
