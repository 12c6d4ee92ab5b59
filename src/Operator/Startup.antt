-- ===== src/Operator/Startup.antt =====
-- Which calls `main` (main.go) makes, and where it ends.
use mathlib.Core.List.{append-nil, append_assoc}
use bridge_operator.Prelude.{
  All, Bool, Error, List, Option-cases, String, [], ap, false, inl, inr, none, refl, some, sym,
  true, ◌++◌, ◌∙◌, ◌∷◌, ◌≡◌, ◌⊎◌,
}
use bridge_operator.DaemonSet.{get_bridge_information_daemon_set}
use bridge_operator.Operator.{
  Exit, Flags, ManagerCall, Process, Runtime, add_healthz_check, add_readyz_check, called, create,
  exit_failure, exit_success, main, manager_options, new_manager, run_calls,
  setup_bridge_configuration, setup_bridge_information, start_manager, startup_calls,
}

-- The calls that `main` is to make, with the options of the manager written out.
abbrev pub wanted_calls : (String → String) → Flags → List ManagerCall
wanted_calls env flags =
    new_manager (record {
      metrics_bind_address = flags.metrics_addr;
      port = 9443;
      health_probe_bind_address = flags.probe_addr;
      leader_election = flags.enable_leader_election;
      leader_election_id = "5633f401.k8s.cni.npwg.io";
    })
    ∷ setup_bridge_configuration
    ∷ setup_bridge_information
    ∷ add_healthz_check "healthz"
    ∷ add_readyz_check "readyz"
    ∷ create (get_bridge_information_daemon_set env)
    ∷ start_manager
    ∷ []

-- The calls, one after the other, lead from one world to the other, and none gives an error.
pub data AllDone {W : Type 0} (perform : Runtime W) : List ManagerCall → W → W → Type 0 where
  none_left : {w : W} → AllDone perform [] w w
  one_done :
      {c : ManagerCall} {cs : List ManagerCall} {w v : W}
      → (perform c w).0 ≡ none
      → AllDone perform cs (perform c w).1 v
      → AllDone perform (c ∷ cs) w v

-- All calls were made, and none gave an error.
pub record Finished {W : Type 0} (perform : Runtime W) (plan : List ManagerCall) (s : Process W)
    (r : Exit × Process W) : Type 0 where
  pub success : r.0 ≡ exit_success
  pub grown : r.1.calls ≡ s.calls ++ plan
  pub done : AllDone perform plan s.world r.1.world

-- The last call that was made is the first one that gave an error.
pub record Failed {W : Type 0} (perform : Runtime W) (plan : List ManagerCall) (s : Process W)
    (r : Exit × Process W) : Type 0 where
  pub before : List ManagerCall
  pub last : ManagerCall
  pub after : List ManagerCall
  pub error : Error
  pub at : W
  pub split : plan ≡ before ++ last ∷ after
  pub failure : r.0 ≡ exit_failure
  pub grown : r.1.calls ≡ s.calls ++ (before ++ last ∷ [])
  pub done : AllDone perform before s.world at
  pub refused : (perform last at).0 ≡ some error
  pub world : r.1.world ≡ (perform last at).1

module _ {W : Type 0} (perform : Runtime W) where
  Finished-more :
      (c : ManagerCall) (cs : List ManagerCall) (s : Process W) (r : Exit × Process W)
      → (perform c s.world).0 ≡ none
      → Finished perform cs (called c (perform c s.world).1 s) r
      → Finished perform (c ∷ cs) s r
  unfolding called
  Finished-more c cs s r fine h = record {
    success = h.success;
    grown = h.grown ∙ append_assoc s.calls (c ∷ []) cs;
    done = one_done fine h.done;
  }

  Failed-more :
      (c : ManagerCall) (cs : List ManagerCall) (s : Process W) (r : Exit × Process W)
      → (perform c s.world).0 ≡ none
      → Failed perform cs (called c (perform c s.world).1 s) r
      → Failed perform (c ∷ cs) s r
  unfolding called
  Failed-more c cs s r fine h = record {
    before = c ∷ h.before;
    last = h.last;
    after = h.after;
    error = h.error;
    at = h.at;
    split = ap (λ l. c ∷ l) h.split;
    failure = h.failure;
    grown = h.grown ∙ append_assoc s.calls (c ∷ []) (h.before ++ h.last ∷ []);
    done = one_done fine h.done;
    refused = h.refused;
    world = h.world;
  }

  run_calls-Ran :
      (plan : List ManagerCall) (s : Process W)
      → Finished perform plan s (run_calls perform plan s)
        ⊎ Failed perform plan s (run_calls perform plan s)
  unfolding run_calls called
  run_calls-Ran [] s =
      inl (record { success = refl; grown = sym (append-nil s.calls); done = none_left })
  run_calls-Ran (c ∷ cs) s =
      let next = called c (perform c s.world).1 s in
      let rest = run_calls perform cs next in
      elim (Option-cases (perform c s.world).0) [
        | inl fine ↦
            rw (run_calls, fine)
              (elim (run_calls-Ran cs next) [
                | inl h ↦ inl (Finished-more c cs s rest fine h)
                | inr h ↦ inr (Failed-more c cs s rest fine h)
              ])
        | inr (e, denied) ↦
            rw (run_calls, denied)
              (inr (record {
                before = [];
                last = c;
                after = cs;
                error = e;
                at = s.world;
                split = refl;
                failure = refl;
                grown = refl;
                done = none_left;
                refused = denied;
                world = refl;
              }))
      ]

  -- `main` makes the manager, sets up the two controllers, adds the two checks, creates the daemon
  -- set and starts the manager, in this order. Either it makes all these calls, none of them gives an
  -- error, and it ends with exit code 0; or it makes them up to the first that gives an error, and
  -- ends with exit code 1.
  pub main-Ran :
      (env : String → String) (flags : Flags) (s : Process W)
      → Finished perform (wanted_calls env flags) s (main perform env flags s)
        ⊎ Failed perform (wanted_calls env flags) s (main perform env flags s)
  unfolding main startup_calls manager_options
  main-Ran env flags s = run_calls-Ran (wanted_calls env flags) s

abbrev pub is_start : ManagerCall → Bool
is_start start_manager = true
is_start (new_manager o) = false
is_start setup_bridge_configuration = false
is_start setup_bridge_information = false
is_start (add_healthz_check n) = false
is_start (add_readyz_check n) = false
is_start (create d) = false

-- The process failed, and the manager was not started on the way.
pub record NotStarted {W : Type 0} (s : Process W) (r : Exit × Process W) : Type 0 where
  pub failure : r.0 ≡ exit_failure
  pub made : List ManagerCall
  pub grown : r.1.calls ≡ s.calls ++ made
  pub no_start : All (λ c. is_start c ≡ false) made

module _ {W : Type 0} (perform : Runtime W) (c : ManagerCall) (after : List ManagerCall) where
  run_calls-NotStarted :
      is_start c ≡ false
      → ((w : W) → (e : Error) × ((perform c w).0 ≡ some e))
      → (before : List ManagerCall) (s : Process W) → All (λ d. is_start d ≡ false) before
      → NotStarted s (run_calls perform (before ++ c ∷ after) s)
  unfolding run_calls called
  run_calls-NotStarted other refused [] s h =
      rw (run_calls, (refused s.world).1)
        (record { failure = refl; made = c ∷ []; grown = refl; no_start = (other, tt) })
  run_calls-NotStarted other refused (d ∷ ds) s h =
      let g = run_calls-NotStarted other refused ds (called d (perform d s.world).1 s) h.1 in
      elim (Option-cases (perform d s.world).0) [
        | inl done ↦
            rw (run_calls, done)
              (record {
                failure = g.failure;
                made = d ∷ g.made;
                grown = g.grown ∙ append_assoc s.calls (d ∷ []) g.made;
                no_start = (h.0, g.no_start);
              })
        | inr (e, failed_call) ↦
            rw (run_calls, failed_call)
              (record { failure = refl; made = d ∷ []; grown = refl; no_start = (h.0, tt) })
      ]

-- If the API server refuses to create the daemon set, as where an earlier run of the operator has
-- created it, then `main` ends with exit code 1, and never starts the manager.
pub main-NotStarted :
    {W : Type 0} (perform : Runtime W) (env : String → String) (flags : Flags) (s : Process W)
    → ((w : W)
        → (e : Error) × ((perform (create (get_bridge_information_daemon_set env)) w).0 ≡ some e))
    → NotStarted s (main perform env flags s)
unfolding main startup_calls
main-NotStarted perform env flags s refused =
    run_calls-NotStarted perform (create (get_bridge_information_daemon_set env))
      (start_manager ∷ []) refl refused
      (new_manager (manager_options flags)
        ∷ setup_bridge_configuration
        ∷ setup_bridge_information
        ∷ add_healthz_check "healthz"
        ∷ add_readyz_check "readyz"
        ∷ [])
      s (refl, (refl, (refl, (refl, (refl, tt)))))
