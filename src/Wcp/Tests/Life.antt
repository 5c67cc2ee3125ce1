-- ===== src/Wcp/Tests/Life.antt =====
-- Closing and shutting down, at concrete values.
use wawo.Prelude.{◌≡◌, true, some, [], ◌∷◌}
use wawo.Wcp.Flag
use wawo.Wcp.Types.{ok, established}
use wawo.Wcp.Queue.{control}
use wawo.Wcp.State.{close, shutdown, shut_rdwr}
use wawo.Wcp.State.Close.{closed_at_once, close_aborts, shutdown_lem}
use wawo.Wcp.Tests.{block}

close_aborts_example : close block ≡ some (ok, closed_at_once block)
close_aborts_example = close_aborts block

shutdown_lem_example :
    let (ec, w) = shutdown shut_rdwr block in
    (w.s_flag.local_write_shutdowned ≡ true)
    × (w.r_flag.local_read_shutdowned ≡ true)
    × (w.s_sending_standby ≡ control 12 Flag.fin ∷ [])
    × (w.state ≡ established)
shutdown_lem_example = shutdown_lem shut_rdwr block
