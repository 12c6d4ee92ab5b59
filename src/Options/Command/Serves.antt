-- ===== src/Options/Command/Serves.antt =====
-- When the command of the daemon (cmd/bridge-operator-daemon/main.go) serves, and with which options.
use text.Mathlib.TextEquality.{eq_iff}
use bridge_operator.Prelude.{
  Bool-cases, Error, List, Result-cases, String, [], arith, if◌then◌else◌, inl, inr, int_eq, nat_eq,
  ok, refl, string_eq, sym, ◌==◌, ◌↔◌, ◌∙◌, ◌∷◌, ◌≡◌, ◌⊎◌,
}
use bridge_operator.Options.{Options, Setup, new_options, run_options}
use bridge_operator.Options.Command.{
  Parsed, add_flags, execute, exited, flags_set, cobra_prints, run_command, serving, set_flag,
  set_flags, string_vars, unparsed,
}
use bridge_operator.Options.Started.{Started, run_options-Started}
use bridge_operator.State.{State}
use bridge_operator.Tracker.{name_eq}
use bridge_operator.Types.{interface_eq, vlan_interface_eq}

-- The last value that a flag was set to.
abbrev pub last_value : String → String → List (String × String) → String
last_value flag v [] = v
last_value flag v ((key, u) ∷ sets) = last_value flag (if flag == key then u else v) sets

-- Each option as its flag was set last.
abbrev pub last_options : List (String × String) → Options → Options
last_options sets o = record {
  kubeconfig = last_value "kubeconfig" o.kubeconfig sets;
  master = last_value "master" o.master sets;
  hostname_override = last_value "hostname-override" o.hostname_override sets;
  host_prefix = last_value "host-prefix" o.host_prefix sets;
}

-- Setting one flag first is setting it before the others.
one_flag :
    (key v : String) (sets : List (String × String)) (o : Options)
    → last_options sets (set_flag string_vars key v o) ≡ last_options ((key, v) ∷ sets) o
unfolding set_flag string_vars
one_flag key v sets o = elim (Bool-cases ("hostname-override" == key)) [
  | inl same ↦ rw (sym ((eq_iff "hostname-override" key).0 same)) refl
  | inr a ↦ elim (Bool-cases ("host-prefix" == key)) [
    | inl same ↦ rw (sym ((eq_iff "host-prefix" key).0 same)) refl
    | inr b ↦ elim (Bool-cases ("kubeconfig" == key)) [
      | inl same ↦ rw (sym ((eq_iff "kubeconfig" key).0 same)) refl
      | inr d ↦ elim (Bool-cases ("master" == key)) [
        | inl same ↦ rw (sym ((eq_iff "master" key).0 same)) refl
        | inr e ↦ rw (a, b, d, e) refl
      ]
    ]
  ]
]

set_flags-last_value :
    (sets : List (String × String)) (o : Options)
    → set_flags sets o ≡ record {
      kubeconfig = last_value "kubeconfig" o.kubeconfig sets;
      master = last_value "master" o.master sets;
      hostname_override = last_value "hostname-override" o.hostname_override sets;
      host_prefix = last_value "host-prefix" o.host_prefix sets;
    }
unfolding set_flags set_flag string_vars
set_flags-last_value [] o = refl
set_flags-last_value ((key, v) ∷ sets) o =
    set_flags-last_value sets (set_flag string_vars key v o) ∙ one_flag key v sets o

data ParsedCases (p : Parsed) : Type 0 where
  bad : (e : Error) → p ≡ unparsed e → ParsedCases p
  help : p ≡ cobra_prints → ParsedCases p
  good : (sets : List (String × String)) → p ≡ flags_set sets → ParsedCases p

Parsed-cases : (p : Parsed) → ParsedCases p
Parsed-cases (unparsed e) = bad e refl
Parsed-cases cobra_prints = help refl
Parsed-cases (flags_set sets) = good sets refl

module _ {C W : Type 0} (setup : Setup C) (parse : List String → Parsed) where
  -- What a parse that gives `sets` goes on to.
  executes :
      (args : List String) (sets : List (String × String)) (w : W)
      → parse args ≡ flags_set sets
      → execute setup parse args w ≡ run_command setup (last_options sets new_options) w
  unfolding execute add_flags string_vars
  executes args sets w parsed =
      rw (execute, parsed, set_flags-last_value sets (add_flags new_options)) refl

  runs_server :
      (o : Options) (w : W) (s : State W)
      → run_command setup o w ≡ serving s
      → run_options setup o w ≡ ok s
  unfolding run_command
  runs_server o w s e = elim (Result-cases (run_options setup o w)) [
    | inl (x, not_started) ↦ absurd (ground (arith, not_started, e))
    | inr (t, started) ↦ ground (arith, started, e)
  ]

  only_if :
      (args : List String) (w : W) (s : State W)
      → execute setup parse args w ≡ serving s
      → (sets : List (String × String)) × (parse args ≡ flags_set sets)
        × Started setup (last_options sets new_options) w s
  unfolding execute
  only_if args w s e = elim (Parsed-cases (parse args)) [
    | bad x h ↦ absurd (ground (arith, h, e))
    | help h ↦ absurd (ground (arith, h, e))
    | good sets h ↦
        let o = last_options sets new_options in
        (
          sets,
          h,
          (run_options-Started setup o w s).0
              (runs_server o w s (sym (executes args sets w h) ∙ e)),
        )
  ]

  served :
      (args : List String) (w : W) (s : State W)
      → (sets : List (String × String)) × (parse args ≡ flags_set sets)
        × Started setup (last_options sets new_options) w s
      → execute setup parse args w ≡ serving s
  unfolding run_command
  served args w s (sets, parsed, started) =
      executes args sets w parsed
      ∙ rw (run_command, (run_options-Started setup (last_options sets new_options) w s).1 started)
          refl

  fine_exit :
      (args : List String) (w : W)
      → execute setup parse args w ≡ exited 0
      → parse args ≡ cobra_prints
  unfolding execute run_command
  fine_exit args w e = elim (Parsed-cases (parse args)) [
    | bad x h ↦ absurd (ground (arith, h, e))
    | help h ↦ h
    | good sets h ↦
        let o = last_options sets new_options in
        let run : run_command setup o w ≡ exited 0 = sym (executes args sets w h) ∙ e in
        elim (Result-cases (run_options setup o w)) [
          | inl (x, not_started) ↦ absurd (ground (arith, not_started, run))
          | inr (t, started) ↦ absurd (ground (arith, started, run))
        ]
  ]

  one_of :
      (args : List String) (w : W)
      → (execute setup parse args w ≡ exited 0)
        ⊎ ((execute setup parse args w ≡ exited 1)
            ⊎ ((t : State W) × (execute setup parse args w ≡ serving t)))
  unfolding execute run_command
  one_of args w = elim (Parsed-cases (parse args)) [
    | bad x h ↦ inr (inl (rw (execute, h) refl))
    | help h ↦ inl (rw (execute, h) refl)
    | good sets h ↦
        let o = last_options sets new_options in
        elim (Result-cases (run_options setup o w)) [
          | inl (x, not_started) ↦
              inr (inl (executes args sets w h ∙ rw (run_command, not_started) refl))
          | inr (t, started) ↦
              inr (inr (t, executes args sets w h ∙ rw (run_command, started) refl))
        ]
  ]

  -- The process of the daemon serves exactly if its arguments set flags, and the start has all that it
  -- asks for, with each option as its flag was set last, or empty; and the server is then the new one.
  -- It exits with status 0 before it serves exactly if the arguments ask for what cobra itself prints,
  -- the help or completions, and in every other case, as where they cannot be parsed, with status 1.
  pub execute-Started :
      (args : List String) (w : W) (s : State W)
      → ((execute setup parse args w ≡ serving s) ↔ (
          (sets : List (String × String)) × (parse args ≡ flags_set sets)
          × Started setup (last_options sets new_options) w s))
        × ((execute setup parse args w ≡ exited 0) ↔ (parse args ≡ cobra_prints))
        × ((execute setup parse args w ≡ exited 0)
            ⊎ ((execute setup parse args w ≡ exited 1)
                ⊎ ((t : State W) × (execute setup parse args w ≡ serving t))))
  unfolding execute
  execute-Started args w s = (
    (only_if args w s, served args w s),
    (fine_exit args w, (λ h. rw (execute, h) refl)),
    one_of args w,
  )
