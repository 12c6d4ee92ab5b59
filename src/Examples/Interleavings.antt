-- ===== src/Examples/Interleavings.antt =====
-- Calls that run at once, the end of a daemon, and the table of ports at concrete inputs.
use bridge_operator.Prelude.{
  Bool, List, [], false, int_eq, nat_eq, refl, string_eq, true, ℕ, ◌+◌, ◌<◌, ◌==◌, ◌∷◌, ◌≡◌, ◌≢◌,
  ◌≤◌, ◌⊎◌,
}
use bridge_operator.GoMap.{has}
use bridge_operator.Ports.{set_port_management}
use bridge_operator.Ports.Laws.{port_entry}
use bridge_operator.Ports.Table.{
  TableOp, add_bridge_op, clear_bridge_op, perform_ops, promised_all, remove_op, set_op, view,
}
use bridge_operator.Ports.Table.Refinement.{perform_ops-view}
use bridge_operator.Shutdown.{
  Progress, Progresses, RunPhase, Running, cache_filled, finished, loop_started, more, none_yet,
  receiving, run_config, sending, start_loop, stop_received,
}
use bridge_operator.Shutdown.Ends.{Progresses-sending, steps_left}
use bridge_operator.Shutdown.Process.{
  DaemonProcess, Ending, Events, configs_filled, loop_begun, main_over, main_returned, no_event,
  notify_signal, one_more, run_returned, signal_sent, signal_taken, still_running, stop_handed,
}
use bridge_operator.Shutdown.Process.Exit.{Events-exited}
use bridge_operator.Threads.{SetCall, System, called, crashed, run, step, unset_bridge}
use bridge_operator.Threads.Crash.{run-eq-crashed, run-ne-crashed}
use bridge_operator.Threads.Serial.{ended, run-set_port_management}
use bridge_operator.Tracker.{name_eq}
use bridge_operator.Types.{interface_eq, vlan_interface_eq}

abbrev two_calls : ℕ → SetCall
two_calls i = record { bridge = "br0"; port = "eth0"; is_managed = i == 0 }

abbrev idle : System
idle = record { table = ("br0", []) ∷ []; phase = λ i. called }

serial_example :
    ((run two_calls (step 0 ∷ step 0 ∷ step 0 ∷ []) idle).phase 0
      ≡ ended (set_port_management "br0" "eth0" true (("br0", []) ∷ [])).0)
    × ((run two_calls (step 0 ∷ step 0 ∷ step 0 ∷ []) idle).table
        ≡ (set_port_management "br0" "eth0" true (("br0", []) ∷ [])).1)
serial_example = run-set_port_management two_calls 0 idle refl

safe_example :
    (run two_calls (step 0 ∷ unset_bridge "br1" ∷ step 1 ∷ step 0 ∷ []) idle).phase 1 ≢ crashed
safe_example =
    run-ne-crashed two_calls (step 0 ∷ unset_bridge "br1" ∷ step 1 ∷ step 0 ∷ []) idle
      (tt, ((λ i. refl), (tt, (tt, tt)))) (λ i. refl) 1

crash_example :
    (run two_calls (step 1 ∷ step 1 ∷ unset_bridge "br0" ∷ step 1 ∷ []) idle).phase 1 ≡ crashed
unfolding has port_entry
crash_example = run-eq-crashed two_calls 1 idle refl refl refl

abbrev running : RunPhase → Bool → ℕ → ℕ → Running
running p filled rest n = record { phase = p; synced = filled; to_start = rest; loops = n }

-- The cache is filled once the daemon is told to stop.
told : Progresses (running sending false 0 0)
told = more none_yet (stop_received refl refl)

filled : Progresses (running sending true 3 0)
unfolding run_config
filled = more told (cache_filled refl)

abbrev process : Running → ℕ → Bool → Ending → DaemonProcess
process r n stopping ending = record {
  running = r;
  queue = n;
  stopping = stopping;
  ending = ending;
}

signalled : Events (process (running receiving false 0 0) 1 false still_running)
unfolding notify_signal
signalled = one_more no_event (signal_sent refl)

stopped : Events (process (running sending false 0 0) 0 false still_running)
stopped =
    one_more (one_more signalled (signal_taken 0 refl refl refl refl))
      (stop_handed refl refl refl refl)

looping : Events (process (running sending true 2 1) 0 false still_running)
unfolding run_config start_loop
looping = one_more (one_more stopped (configs_filled refl refl refl)) (loop_begun 2 refl refl refl)

gone : Events (process (running finished true 2 0) 0 false main_returned)
gone = one_more (one_more looping (run_returned 0 refl refl refl refl)) (main_over refl refl refl)

exit_example :
    let p = process (running finished true 2 0) 0 false main_returned in
    (p.queue ≤ 16)
    × ((p.ending ≢ main_returned)
        ⊎ ((p.running.synced ≡ true) × (p.running.to_start + p.running.loops ≡ 2)))
exit_example = Events-exited gone

sending_example :
    let r = running sending true 3 0 in
    let s = running sending true 2 1 in
    (s.phase ≡ receiving)
    ⊎ (((s.phase ≡ finished) × (s.synced ≡ true) × (s.to_start + s.loops ≡ 2))
        ⊎ ((s.phase ≡ sending)
            × (steps_left s ≤ 5)
            × ((t : Running) × Progress s t)
            × ((r.phase ≡ receiving) ⊎ (steps_left s < steps_left r))))
unfolding start_loop
sending_example =
    Progresses-sending {r = running sending true 3 0} {s = running sending true 2 1} filled
      (loop_started 2 refl)

abbrev table_ops : List TableOp
table_ops =
    add_bridge_op "br0"
    ∷ set_op "br0" "eth0" true
    ∷ remove_op "br0" "eth1"
    ∷ clear_bridge_op "br1"
    ∷ []

table_example : view (perform_ops table_ops []) ≡ promised_all table_ops (view [])
table_example = perform_ops-view table_ops []
