-- ===== src/Shutdown/Process/Exit.antt =====
-- What has to happen before `main` returns, whatever signals the process gets.
use bridge_operator.Shutdown.{loop_received, stop_received}
use bridge_operator.Shutdown.Process.{
  configs_filled, goroutine_panicked, loop_begun, main_over, run_returned, signal_taken,
  stop_handed,
}
use bridge_operator.Prelude.{
  Bool, Bool-cases, arith, false, inl, inr, refl, true, ◌+◌, ◌≡◌, ◌≢◌, ◌≤◌, ◌⊎◌,
}
use bridge_operator.Shutdown.{
  Progress, Progresses, Running, cache_filled, finished, loop_started, more, none_yet, run_config,
  sending, start_loop,
}
use bridge_operator.Shutdown.Ends.{Progresses-finished}
use bridge_operator.Shutdown.Process.{
  DaemonProcess, Ending, Event, Events, died, main_returned, no_event, notify_signal, one_more,
  signal_sent, still_running,
}

abbrev is_returned : Ending → Bool
is_returned still_running = false
is_returned main_returned = true
is_returned died = false

-- What holds of a process between two events.
record Settled (p : DaemonProcess) : Type 0 where
  progress : Progresses p.running
  room : p.queue ≤ 16
  done : (is_returned p.ending ≡ true) → (p.running.phase ≡ finished)

-- A step of the goroutines, while the process is still running.
progressed :
    {p : DaemonProcess} (r : Running) (b : Bool)
    → Settled p
    → p.ending ≡ still_running
    → Progress p.running r
    → Settled (record p { running = r; stopping = b })
progressed r b s live forward = record {
  progress = more s.progress forward;
  room = s.room;
  done = λ e. absurd (ground (arith, e, live));
}

Event-Settled : {p q : DaemonProcess} → Event p q → Settled p → Settled q
unfolding notify_signal
Event-Settled {p} (signal_sent live) s = record {
  progress = s.progress;
  room = ground (arith, s.room);
  done = s.done;
}
Event-Settled {p} (signal_taken n live idle e q_is) s =
    rw q_is (record { progress = s.progress; room = ground (arith, s.room, e); done = s.done })
Event-Settled {p} (stop_handed live stop waits q_is) s =
    rw q_is
      (progressed (record p.running { phase = sending }) false s live (stop_received waits refl))
Event-Settled {p} (configs_filled live empty q_is) s =
    rw q_is (progressed (run_config p.running) p.stopping s live (cache_filled empty))
Event-Settled {p} (loop_begun n live left q_is) s =
    rw q_is (progressed (start_loop n p.running) p.stopping s live (loop_started n left))
Event-Settled {p} (run_returned n live sends left q_is) s = rw q_is (
    progressed (record p.running { phase = finished; loops = n }) p.stopping s live
      (loop_received n sends left refl))
Event-Settled {p} (main_over live over q_is) s =
    rw q_is (record { progress = s.progress; room = s.room; done = λ e. over })
Event-Settled {p} (goroutine_panicked live q_is) s =
    rw q_is
      (record { progress = s.progress; room = s.room; done = λ e. absurd (ground (arith, e)) })

Events-Settled : {p : DaemonProcess} → Events p → Settled p
Events-Settled no_event = record {
  progress = none_yet;
  room = ground arith;
  done = λ e. absurd (ground (arith, e));
}
Events-Settled (one_more es e) = Event-Settled e (Events-Settled es)

-- The channel never holds more than 16 signals. When `main` has returned, the cache had been filled,
-- and one of the three loops had received the value that `Server.Run` sends, so that two run or are
-- still to be started; so as long as the cache is not filled, the process ends by a panic only,
-- however many signals it got.
pub Events-exited :
    {p : DaemonProcess}
    → Events p
    → (p.queue ≤ 16)
      × ((p.ending ≢ main_returned)
          ⊎ ((p.running.synced ≡ true) × (p.running.to_start + p.running.loops ≡ 2)))
Events-exited {p} es =
    let s = Events-Settled es in
    (
      s.room,
      elim (Bool-cases (is_returned p.ending)) [
        | inl over ↦ inr (Progresses-finished s.progress (s.done over))
        | inr lives ↦ inl (λ e. absurd (ground (arith, lives, e)))
      ],
    )
