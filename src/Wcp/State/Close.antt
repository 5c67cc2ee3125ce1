-- ===== src/Wcp/State/Close.antt =====
-- Closing and shutting down a connection of src/net/wcp.cpp.
use wawo.Prelude.{◌≡◌, true, not, some, [], ◌∷◌, ◌++◌, arith, if◌then◌else◌, ◌||◌, ◌&&◌}
use wawo.Wcp.Flag
use wawo.Wcp.Types.{Wcb, closed, ok, is_ok, e_econnaborted, e_ealready, e_enotconn}
use wawo.Wcp.Queue.{control, fin, enqueue}
use wawo.Wcp.State.{close, shutdown, ShutdownFlag, shuts_read, shuts_write}

-- The state that `close` leaves behind.
abbrev pub closed_at_once : Wcb → Wcb
closed_at_once w = record w {
  state = closed;
  wcb_errno = if is_ok w.wcb_errno then e_econnaborted else w.wcb_errno;
  wcb_flag = record (w.wcb_flag) { closed_called = true };
  s_flag = record (w.s_flag) { local_write_shutdowned = true };
  r_flag = record (w.r_flag) { local_read_shutdowned = true };
}

-- In every state, ESTABLISHED and CLOSE_WAIT among them, the first `close` answers OK, puts the block
-- into CLOSED with an error, shuts both directions, and queues nothing: no FIN is ever made. A later
-- call answers E_EALREADY and changes nothing.
pub close_aborts :
    (w : Wcb)
    → close w ≡ some (if w.wcb_flag.closed_called then (e_ealready, w) else (ok, closed_at_once w))
unfolding close
close_aborts w = ground arith

-- What `shutdown` does to the direction that it shuts for the first time, and only then: a FIN is
-- queued behind what waits, with the next sequence number.
pub shutdown_lem :
    (flag : ShutdownFlag) (w : Wcb)
    → let (ec, w') = shutdown flag w in
      (w'.s_flag.local_write_shutdowned ≡ (shuts_write flag || w.s_flag.local_write_shutdowned))
      × (w'.r_flag.local_read_shutdowned ≡ (shuts_read flag || w.r_flag.local_read_shutdowned))
      × (w'.s_sending_standby ≡ (
          if shuts_write flag && not w.s_flag.local_write_shutdowned
          then w.s_sending_standby ++ control w.snd_info.dsn Flag.fin ∷ []
          else w.s_sending_standby))
      × (w'.state ≡ w.state)
unfolding shutdown fin enqueue
shutdown_lem flag w = ground arith

-- A second `shutdown` of the same directions is refused and changes nothing.
pub shutdown_twice :
    (flag : ShutdownFlag) (w : Wcb)
    → shutdown flag (shutdown flag w).1 ≡ (e_enotconn, (shutdown flag w).1)
unfolding shutdown fin enqueue
shutdown_twice flag w = ground arith
