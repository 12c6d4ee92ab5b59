-- ===== src/Shutdown/Process.antt =====
-- The process of a daemon (cmd/bridge-operator-daemon/main.go) once `Server.Run` is called: signals
-- go to a channel of 16, beyond which they are dropped, and a goroutine calls `Options.Stop`
-- (pkg/server/options.go) for each, which blocks until `Server.Run` receives.
pub mod Exit
use bridge_operator.Prelude.{
  Bool, false, if◌then◌else◌, int_eq, nat_eq, string_eq, suc, true, ℕ, ◌+◌, ◌==◌, ◌≡◌,
}
use bridge_operator.Shutdown.{
  Running, at_start, finished, receiving, run_config, sending, start_loop,
}
use bridge_operator.Tracker.{name_eq}
use bridge_operator.Types.{interface_eq, vlan_interface_eq}

-- How the process stands: `main` has returned, or a goroutine panicked, such as one that runs a
-- handler or a runner.
pub data Ending : Type 0 where
  still_running main_returned died : Ending

pub record DaemonProcess : Type 0 where
  pub running : Running
  pub queue : ℕ
  pub stopping : Bool
  pub ending : Ending

abbrev pub process_at_start : DaemonProcess
process_at_start = record {
  running = at_start;
  queue = 0;
  stopping = false;
  ending = still_running;
}

-- `signal.Notify`
unfoldable pub notify_signal : DaemonProcess → DaemonProcess
notify_signal p = record p { queue = if p.queue == 16 then p.queue else p.queue + 1 }

-- What can happen while the process is still running.
pub data Event : DaemonProcess → DaemonProcess → Type 0 where
  signal_sent : {p : DaemonProcess} → p.ending ≡ still_running → Event p (notify_signal p)
  signal_taken :
      {p q : DaemonProcess} (n : ℕ)
      → p.ending ≡ still_running
      → p.stopping ≡ false
      → p.queue ≡ suc n
      → q ≡ record p { queue = n; stopping = true }
      → Event p q
  stop_handed :
      {p q : DaemonProcess}
      → p.ending ≡ still_running
      → p.stopping ≡ true
      → p.running.phase ≡ receiving
      → q ≡ record p { stopping = false; running = record p.running { phase = sending } }
      → Event p q
  configs_filled :
      {p q : DaemonProcess}
      → p.ending ≡ still_running
      → p.running.synced ≡ false
      → q ≡ record p { running = run_config p.running }
      → Event p q
  loop_begun :
      {p q : DaemonProcess} (n : ℕ)
      → p.ending ≡ still_running
      → p.running.to_start ≡ suc n
      → q ≡ record p { running = start_loop n p.running }
      → Event p q
  run_returned :
      {p q : DaemonProcess} (n : ℕ)
      → p.ending ≡ still_running
      → p.running.phase ≡ sending
      → p.running.loops ≡ suc n
      → q ≡ record p { running = record p.running { phase = finished; loops = n } }
      → Event p q
  main_over :
      {p q : DaemonProcess}
      → p.ending ≡ still_running
      → p.running.phase ≡ finished
      → q ≡ record p { ending = main_returned }
      → Event p q
  goroutine_panicked :
      {p q : DaemonProcess} → p.ending ≡ still_running → q ≡ record p { ending = died } → Event p q

pub data Events : DaemonProcess → Type 0 where
  no_event : Events process_at_start
  one_more : {p q : DaemonProcess} → Events p → Event p q → Events q
