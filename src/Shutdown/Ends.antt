-- ===== src/Shutdown/Ends.antt =====
-- When a daemon that is told to stop ends, and what it leaves running.
use bridge_operator.Shutdown.{loop_received, stop_received}
use bridge_operator.Prelude.{
  Bool, Bool-cases, ap, arith, false, if◌then◌else◌, inl, inr, int_eq, nat_eq, not, refl, string_eq,
  suc, true, zero, ℕ, ◌&&◌, ◌+◌, ◌<◌, ◌==◌, ◌≡◌, ◌≤◌, ◌⊎◌,
}
use bridge_operator.Shutdown.{
  Progress, Progresses, RunPhase, Running, cache_filled, finished, loop_started, more, none_yet,
  receiving, run_config, sending, start_loop,
}
use bridge_operator.Tracker.{name_eq}
use bridge_operator.Types.{interface_eq, vlan_interface_eq}

-- How many loops are started in all, less the one that has ended.
abbrev loops_in : RunPhase → ℕ
loops_in receiving = 3
loops_in sending = 3
loops_in finished = 2

abbrev is_finished : RunPhase → Bool
is_finished receiving = false
is_finished sending = false
is_finished finished = true

abbrev is_counted : RunPhase → Bool → ℕ → Bool
is_counted p true n = n == loops_in p
is_counted p false n = n == 0 && not (is_finished p)

abbrev Counted : Running → Type 0
Counted r = is_counted r.phase r.synced (r.to_start + r.loops) ≡ true

Progress-Counted : {r s : Running} → Progress r s → Counted r → Counted s
unfolding run_config start_loop
Progress-Counted {r} (cache_filled e) h = ground (arith, h, e)
Progress-Counted {r} (loop_started n e) h = ground (arith, h, e)
Progress-Counted {r} {s} (stop_received p e) h = rw e (ground (arith, h, p))
Progress-Counted {r} {s} (loop_received n p l e) h = rw e (ground (arith, h, p, l))

Progresses-Counted : {r : Running} → Progresses r → Counted r
Progresses-Counted none_yet = refl
Progresses-Counted (more r p) = Progress-Counted p (Progresses-Counted r)

-- When `Server.Run` has returned, the cache had been filled, and of the three loops two go on running
-- or are still to be started.
pub Progresses-finished :
    {r : Running}
    → Progresses r
    → r.phase ≡ finished
    → (r.synced ≡ true) × (r.to_start + r.loops ≡ 2)
Progresses-finished {r} ps e =
    let h = Progresses-Counted ps in (ground (arith, h, e), ground (arith, h, e))

-- How many steps there are at most before `Server.Run` returns.
abbrev pub steps_left : Running → ℕ
steps_left r = if r.synced then r.to_start + 1 else 5

-- It can go on: the cache can be filled, a loop can be started, or one can receive.
can_go_on : (r : Running) → Counted r → r.phase ≡ sending → (s : Running) × Progress r s
can_go_on r h e = elim (Bool-cases r.synced) [
  | inr empty ↦ (run_config r, cache_filled empty)
  | inl filled ↦ elim (nat_cases r.loops) [
    | inr (n, some_loop) ↦
        (record r { phase = finished; loops = n }, loop_received n e some_loop refl)
    | inl no_loop ↦ elim (nat_cases r.to_start) [
      | inr (n, another) ↦ (start_loop n r, loop_started n another)
      | inl all_started ↦ absurd (ground (arith, h, e, filled, no_loop, all_started))
    ]
  ]
]
  where
    nat_cases : (n : ℕ) → (n ≡ 0) ⊎ ((m : ℕ) × (n ≡ suc m))
    nat_cases zero = inl refl
    nat_cases (suc m) = inr (m, refl)

-- Every step after the stop value was received is on the way to the end.
closer :
    {r s : Running}
    → Progress r s
    → Counted r
    → s.phase ≡ sending
    → (r.phase ≡ receiving) ⊎ (steps_left s < steps_left r)
unfolding run_config start_loop
closer {r} (cache_filled f) h e = inr (ground (arith, f))
closer {r} (loop_started n l) h e = inr (ground (arith, h, e, l))
closer {r} (stop_received f g) h e = inl f
closer {r} {s} (loop_received n f l g) h e = absurd (ground (arith, e, ap (λ x. x.phase) g))

phase_cases : (p : RunPhase) → (p ≡ receiving) ⊎ ((p ≡ finished) ⊎ (p ≡ sending))
phase_cases receiving = inl refl
phase_cases finished = inr (inl refl)
phase_cases sending = inr (inr refl)

-- Whatever happens next, then `Server.Run` still waits for the stop value, or it has returned, after
-- the cache was filled and with two of the three loops left that run or are still to be started; or
-- it was told to stop, and then it is not stuck, at most five steps from its return, and closer to it
-- than before, unless what happened was that it was told to stop.
pub Progresses-sending :
    {r s : Running}
    → Progresses r
    → Progress r s
    → (s.phase ≡ receiving)
      ⊎ (((s.phase ≡ finished) × (s.synced ≡ true) × (s.to_start + s.loops ≡ 2))
          ⊎ ((s.phase ≡ sending)
              × (steps_left s ≤ 5)
              × ((t : Running) × Progress s t)
              × ((r.phase ≡ receiving) ⊎ (steps_left s < steps_left r))))
Progresses-sending {r} {s} ps p =
    let h = Progress-Counted p (Progresses-Counted ps) in
    elim (phase_cases s.phase) [
      | inl waits ↦ inl waits
      | inr told ↦ elim told [
        | inl over ↦
            let (filled, left) = Progresses-finished (more ps p) over in
            inr (inl (over, filled, left))
        | inr stopping ↦ inr (
            inr (
              stopping,
              ground (arith, h, stopping),
              can_go_on s h stopping,
              closer p (Progresses-Counted ps) stopping,
            ))
      ]
    ]
