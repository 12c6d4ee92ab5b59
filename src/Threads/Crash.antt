-- ===== src/Threads/Crash.antt =====
-- Calls of `SetPortManagement` (pkg/server/server.go) that others come between.
-- A call that has found its bridge finds it still, and none has crashed.
use mathlib.Core.Path.{subst}
use text.Mathlib.TextEquality.{eq_iff}
use bridge_operator.Prelude.{
  All, Bool, Bool-cases, List, Option-cases, String, [], arith, beq_refl, false, inl, inr, int_eq,
  nat_beq_iff, nat_eq, none, refl, some, string_eq, true, ℕ, ◌==◌, ◌∙◌, ◌∷◌, ◌≡◌, ◌≢◌,
}
use bridge_operator.GoMap.{GoMap, has, lookup, put}
use bridge_operator.GoMap.Laws.{has-clear, has-put_of_lookup, lookup-put}
use bridge_operator.Ports.Laws.{has-remove_port_management, port_entry}
use bridge_operator.State.{Ports}
use bridge_operator.Threads.{
  Move, Phase, SetCall, System, called, clear_bridge, crashed, found_bridge, found_no_port, move,
  refused, remove_port_of, run, set_step, step, unset_bridge, written,
}
use bridge_operator.Tracker.{name_eq}
use bridge_operator.Types.{interface_eq, vlan_interface_eq}

abbrev is_safe : SetCall → Phase → Ports → Bool
is_safe c called m = true
is_safe c found_bridge m = has c.bridge m
is_safe c found_no_port m = has c.bridge m
is_safe c written m = true
is_safe c refused m = true
is_safe c crashed m = false

-- The bridges of the calls stay.
abbrev pub Spares : (ℕ → SetCall) → Move → Type 0
Spares calls (step i) = Unit {0}
Spares calls (remove_port_of br port) = Unit {0}
Spares calls (unset_bridge br) = (i : ℕ) → (br == (calls i).bridge) ≡ false

is_safe_of_has :
    (c : SetCall) (p : Phase) (m n : Ports)
    → (has c.bridge n ≡ has c.bridge m)
    → is_safe c p m ≡ true
    → is_safe c p n ≡ true
is_safe_of_has c called m n e h = refl
is_safe_of_has c found_bridge m n e h = e ∙ h
is_safe_of_has c found_no_port m n e h = e ∙ h
is_safe_of_has c written m n e h = refl
is_safe_of_has c refused m n e h = refl
is_safe_of_has c crashed m n e h = h

-- A step takes no bridge away.
has-set_step :
    (c : SetCall) (p : Phase) (m : Ports) (b : String) → has b (set_step c p m).1 ≡ has b m
unfolding set_step
has-set_step c called m b = refl
has-set_step c found_bridge m b = ground arith
has-set_step c found_no_port m b = elim (Option-cases (lookup c.bridge m)) [
  | inl e ↦ ground (arith, e)
  | inr (ports, e) ↦
      ground (arith, e, has-put_of_lookup c.bridge b (put c.port c.is_managed ports) ports m)
]
has-set_step c written m b = refl
has-set_step c refused m b = refl
has-set_step c crashed m b = refl

is_safe-set_step :
    (c : SetCall) (p : Phase) (m : Ports)
    → is_safe c p m ≡ true
    → is_safe c (set_step c p m).0 (set_step c p m).1 ≡ true
unfolding set_step has
is_safe-set_step c called m h = ground arith
is_safe-set_step c found_bridge m h = ground arith
is_safe-set_step c found_no_port m h = ground arith
is_safe-set_step c written m h = refl
is_safe-set_step c refused m h = refl
is_safe-set_step c crashed m h = h

-- The ways that a step can go.
module _ (c : SetCall) (m : Ports) where
  set_step-called : has c.bridge m ≡ true → set_step c called m ≡ (found_bridge, m)
  unfolding set_step
  set_step-called known = rw known

  set_step-found_bridge :
      port_entry c.bridge c.port m ≡ none → set_step c found_bridge m ≡ (found_no_port, m)
  unfolding set_step port_entry has
  set_step-found_bridge free = ground (arith, free)

  set_step-found_no_port :
      (ports : GoMap String Bool)
      → lookup c.bridge m ≡ some ports
      → set_step c found_no_port m ≡ (written, put c.bridge (put c.port c.is_managed ports) m)
  unfolding set_step
  set_step-found_no_port ports e = ground (arith, e)

  set_step_gone : has c.bridge m ≡ false → set_step c found_no_port m ≡ (crashed, m)
  unfolding set_step has
  set_step_gone gone = ground (arith, gone)

some_of_has :
    (b : String) (m : Ports)
    → has b m ≡ true
    → (ports : GoMap String Bool) × (lookup b m ≡ some ports)
unfolding has
some_of_has b m known = elim (Option-cases (lookup b m)) [
  | inl e ↦ absurd (ground (arith, known, e))
  | inr found ↦ found
]

port_entry-put :
    (b p : String) (v : Bool) (ports : GoMap String Bool) (m : Ports)
    → port_entry b p (put b (put p v ports) m) ≡ some v
unfolding port_entry
port_entry-put b p v ports m =
    ground (arith, eq_iff b b, eq_iff p p, lookup-put b b (put p v ports) m, lookup-put p p v ports)

has-clear_bridge : (b : String) (m : Ports) → has b (clear_bridge b m) ≡ false
unfolding clear_bridge
has-clear_bridge b m = has-clear b b [] m ∙ rw (beq_refl b)

module _ (calls : ℕ → SetCall) where
  AllSafe : System → Type 0
  AllSafe s = (i : ℕ) → is_safe (calls i) (s.phase i) s.table ≡ true

  move-AllSafe : (m : Move) (s : System) → Spares calls m → AllSafe s → AllSafe (move calls m s)
  unfolding move AllSafe clear_bridge
  move-AllSafe (step j) s spared h i = elim (Bool-cases (j == i)) [
    | inl same ↦ rw same (
        subst
          (λ x.
            is_safe (calls x) (set_step (calls j) (s.phase j) s.table).0
              (set_step (calls j) (s.phase j) s.table).1
            ≡ true)
          ((nat_beq_iff j i).0 same) (is_safe-set_step (calls j) (s.phase j) s.table (h j)))
    | inr other ↦ rw other (
        is_safe_of_has (calls i) (s.phase i) s.table _
          (has-set_step (calls j) (s.phase j) s.table (calls i).bridge) (h i))
  ]
  move-AllSafe (remove_port_of br port) s spared h i =
      is_safe_of_has (calls i) (s.phase i) s.table _
        (has-remove_port_management br port (calls i).bridge s.table) (h i)
  move-AllSafe (unset_bridge br) s spared h i =
      is_safe_of_has (calls i) (s.phase i) s.table _
        (has-clear br (calls i).bridge [] s.table ∙ rw (spared i)) (h i)

  run-AllSafe :
      (ms : List Move) (s : System) → All (Spares calls) ms → AllSafe s → AllSafe (run calls ms s)
  unfolding run
  run-AllSafe [] s spared h = h
  run-AllSafe (m ∷ ms) s spared h =
      run-AllSafe ms (move calls m s) spared.1 (move-AllSafe m s spared.0 h)

  -- As long as no bridge that a call is about is taken out of the table, no call crashes, whatever
  -- the order in which any number of goroutines make the steps of their calls.
  pub run-ne-crashed :
      (ms : List Move) (s : System)
      → All (Spares calls) ms
      → ((i : ℕ) → s.phase i ≡ called)
      → (i : ℕ) → (run calls ms s).phase i ≢ crashed
  unfolding AllSafe
  run-ne-crashed ms s spared fresh i e =
      let h = run-AllSafe ms s spared (λ j. rw (fresh j)) i in absurd (ground (arith, h, e))

  -- A call for a bridge in the table, and for a port that is not, crashes if the bridge is taken out
  -- after the two checks: the write is to a nil map.
  pub run-eq-crashed :
      (i : ℕ) (s : System)
      → s.phase i ≡ called
      → has (calls i).bridge s.table ≡ true
      → port_entry (calls i).bridge (calls i).port s.table ≡ none
      → (run calls (step i ∷ step i ∷ unset_bridge (calls i).bridge ∷ step i ∷ []) s).phase i
        ≡ crashed
  unfolding run move
  run-eq-crashed i s fresh known free = rw (
    beq_refl i,
    fresh,
    set_step-called (calls i) s.table known,
    set_step-found_bridge (calls i) s.table free,
    set_step_gone (calls i) _ (has-clear_bridge (calls i).bridge s.table),
  )

  -- Two calls for the same port, of which the second makes its checks before the first one writes,
  -- both go through; the second one overwrites what the first one recorded.
  pub run-overwrites :
      (i j : ℕ) (s : System)
      → (i == j) ≡ false
      → s.phase i ≡ called
      → s.phase j ≡ called
      → (calls i).bridge ≡ (calls j).bridge
      → (calls i).port ≡ (calls j).port
      → has (calls j).bridge s.table ≡ true
      → port_entry (calls j).bridge (calls j).port s.table ≡ none
      → let t = run calls (step i ∷ step i ∷ step j ∷ step j ∷ step i ∷ step j ∷ []) s in
        (t.phase i ≡ written)
        × (t.phase j ≡ written)
        × (port_entry (calls j).bridge (calls j).port t.table ≡ some (calls j).is_managed)
  unfolding run move
  run-overwrites i j s apart fresh_i fresh_j same_bridge same_port known free =
      let c = calls j in
      let (ports, found) = some_of_has c.bridge s.table known in
      let apart' : (j == i) ≡ false = ground (arith, apart) in
      let first = put (calls i).port (calls i).is_managed ports in
      let m = put (calls i).bridge first s.table in
      let found_again : lookup c.bridge m ≡ some first =
        lookup-put (calls i).bridge c.bridge first s.table ∙ rw (same_bridge, beq_refl c.bridge) in
      rw
        (
          beq_refl i,
          beq_refl j,
          apart,
          apart',
          fresh_i,
          fresh_j,
          set_step-called (calls i) s.table (rw same_bridge known),
          set_step-found_bridge (calls i) s.table (rw (same_bridge, same_port) free),
          set_step-called c s.table known,
          set_step-found_bridge c s.table free,
          set_step-found_no_port (calls i) s.table ports (rw same_bridge found),
          set_step-found_no_port c m first found_again,
        )
        (refl, refl, port_entry-put c.bridge c.port c.is_managed first m)
