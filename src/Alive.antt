-- ===== src/Alive.antt =====
-- `alive_process_thread` (main_alive.cpp): one round each second.
pub mod Rounds
pub mod Thread
pub mod Answered
use dummy_client.Common.{Option, ℕ, zero, suc, ◌+◌, List, Bool, true, false, ltb, if◌then◌else◌}
use dummy_client.Common.Int.{ℤ, negsuc}
use dummy_client.Trace.{info, no_param}
use dummy_client.Outcome.{ok, fault}
use dummy_client.Os.{Os}
use dummy_client.RestClient.{Curl}
use dummy_client.Connect.{C, ◌>>=◌, ◌>>◌, pure, log_line}
use dummy_client.Commands.{
  ConnInfo, Interface, command_heartbeat_report, command_alive_report, command_metadata_report,
}

-- The thread's variables: `ret` is the last heartbeat, refresh or metadata report.
pub record AliveState : Type 0 where
  pub ret : Bool
  pub refresh : ℕ
  pub metareport : ℕ

abbrev pub refresh_interval : ℕ
refresh_interval = 3600

abbrev pub metadata_interval : ℕ
metadata_interval = 60

abbrev pub alive_start : AliveState
alive_start = record { ret = false; refresh = 0; metareport = 0 }

-- The round, over the three reports.
module _ {N : Type 0} (heartbeat alive metadata : C N Bool) where
  -- `if (ret == FALSE) ret = command_heartbeat_report(conninfo);`
  unfoldable pub heartbeat_step : Bool → C N Bool
  heartbeat_step ret = if ret then pure true else heartbeat

  unfoldable pub refresh_step : AliveState → C N AliveState
  refresh_step s =
      if ltb s.refresh refresh_interval
      then pure (record s { refresh = s.refresh + 1 })
      else (heartbeat >>= λ ret. do
        log_line info "Refresh Client Informs packet send" (negsuc 0) no_param
        pure (record s { ret = ret; refresh = 0 }))

  unfoldable pub metadata_step : AliveState → C N AliveState
  metadata_step s =
      if ltb s.metareport metadata_interval
      then pure (record s { metareport = s.metareport + 1 })
      else (metadata >>= λ ret. do
        log_line info "Metadata healthcheck report" (negsuc 0) no_param
        pure (record s { ret = ret; metareport = 0 }))

  unfoldable pub alive_round : AliveState → C N AliveState
  alive_round s = heartbeat_step s.ret >>= λ ret.
      alive >> (refresh_step (record s { ret = ret }) >>= metadata_step)

  -- The first rounds of the loop, which has no end.
  unfoldable pub alive_rounds : ℕ → AliveState → C N AliveState
  alive_rounds zero s = pure s
  alive_rounds (suc n) s = alive_round s >>= alive_rounds n

-- The thread with its commands: the first `n` seconds behind its opening log line.
unfoldable pub alive_process_thread :
    {N : Type 0} → Os N → Curl N → (N → Option (List Interface)) → ℤ → ConnInfo → ℕ → C N AliveState
alive_process_thread os curl interfaces indeterminate conninfo n =
    log_line info "Start Alive" (negsuc 0) no_param
    >> alive_rounds (command_heartbeat_report os interfaces conninfo)
        (command_alive_report os conninfo)
        (command_metadata_report os curl indeterminate indeterminate conninfo) n alive_start
