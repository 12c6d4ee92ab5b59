-- ===== src/Threads/Serial.antt =====
-- One call of `SetPortManagement` (pkg/server/server.go) that nothing comes between.
use bridge_operator.Prelude.{
  Error, Option, Option-cases, [], arith, beq_refl, inl, inr, int_eq, nat_eq, none, some, string_eq,
  ℕ, ◌∷◌, ◌≡◌,
}
use bridge_operator.GoMap.{has, lookup}
use bridge_operator.Ports.{set_port_management}
use bridge_operator.State.{Ports}
use bridge_operator.Threads.{
  Phase, SetCall, System, called, move, refused, run, set_step, step, written,
}
use bridge_operator.Tracker.{name_eq}
use bridge_operator.Types.{interface_eq, vlan_interface_eq}

-- The phase in which a call ends that gives this error.
abbrev pub ended : Option Error → Phase
ended none = written
ended (some e) = refused

-- Three steps of a call on its own.
abbrev three_steps : SetCall → Ports → Phase × Ports
three_steps c m =
    let (p, m1) = set_step c called m in let (q, m2) = set_step c p m1 in set_step c q m2

three_steps-set_port_management :
    (c : SetCall) (m : Ports)
    → (three_steps c m).0 ≡ ended (set_port_management c.bridge c.port c.is_managed m).0
      × ((three_steps c m).1 ≡ (set_port_management c.bridge c.port c.is_managed m).1)
unfolding set_step set_port_management has
three_steps-set_port_management c m = elim (Option-cases (lookup c.bridge m)) [
  | inl absent ↦ (ground (arith, absent), ground (arith, absent))
  | inr (ports, e) ↦ elim (Option-cases (lookup c.port ports)) [
    | inl free ↦ (ground (arith, e, free), ground (arith, e, free))
    | inr (val, taken) ↦ (ground (arith, e, taken), ground (arith, e, taken))
  ]
]

-- Three steps of one goroutine with nothing between them are `SetPortManagement`: the same table,
-- written where it gives no error, and refused where it gives one.
pub run-set_port_management :
    (calls : ℕ → SetCall) (i : ℕ) (s : System)
    → s.phase i ≡ called
    → let c = calls i in
      let t = run calls (step i ∷ step i ∷ step i ∷ []) s in
      (t.phase i ≡ ended (set_port_management c.bridge c.port c.is_managed s.table).0)
      × (t.table ≡ (set_port_management c.bridge c.port c.is_managed s.table).1)
unfolding run move
run-set_port_management calls i s h =
    rw (beq_refl i, h) (three_steps-set_port_management (calls i) s.table)
