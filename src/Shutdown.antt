-- ===== src/Shutdown.antt =====
-- How a daemon ends: `Server.Run` and `OnBridgeConfigSynced` (pkg/server/server.go),
-- `BridgeConfConfig.Run` (pkg/controllers/bridgeconfig.go) and `Options.Stop`
-- (pkg/server/options.go). Both channels are unbuffered: a value is sent when one receives it.
pub mod Ends
pub mod Process
use bridge_operator.Prelude.{Bool, false, length, suc, true, ℕ, ◌+◌, ◌≡◌}
use bridge_operator.Daemon.{on_bridge_config_synced}

-- Where `Server.Run` stands: it receives from `stopCh`, then it sends to `syncRunnerStopCh`.
pub data RunPhase : Type 0 where
  receiving sending finished : RunPhase

-- `to_start` counts the loops that `OnBridgeConfigSynced` is still to start, and `loops` the
-- goroutines that run a runner's `Loop`, which ends once it receives.
pub record Running : Type 0 where
  pub phase : RunPhase
  pub synced : Bool
  pub to_start : ℕ
  pub loops : ℕ

-- The informer is started, and its cache is not filled yet.
abbrev pub at_start : Running
at_start = record { phase = receiving; synced = false; to_start = 0; loops = 0 }

-- `BridgeConfConfig.Run`: once the cache is filled, it calls the handler's `OnBridgeConfigSynced`,
-- which goes through the runners.
unfoldable pub run_config : Running → Running
unfolding on_bridge_config_synced
run_config r = record r { synced = true; to_start = length on_bridge_config_synced }

-- `go s.bridgeWatcher.Loop(s.syncRunnerStopCh)`, and so for the other runners, one after the other.
-- The argument counts those that are left after it.
unfoldable pub start_loop : ℕ → Running → Running
start_loop n r = record r { to_start = n; loops = r.loops + 1 }

pub data Progress : Running → Running → Type 0 where
  cache_filled : {r : Running} → r.synced ≡ false → Progress r (run_config r)
  loop_started : {r : Running} (n : ℕ) → r.to_start ≡ suc n → Progress r (start_loop n r)
  stop_received :
      {r s : Running} → r.phase ≡ receiving → s ≡ record r { phase = sending } → Progress r s
  loop_received :
      {r s : Running} (n : ℕ)
      → r.phase ≡ sending
      → r.loops ≡ suc n
      → s ≡ record r { phase = finished; loops = n }
      → Progress r s

pub data Progresses : Running → Type 0 where
  none_yet : Progresses at_start
  more : {r s : Running} → Progresses r → Progress r s → Progresses s
