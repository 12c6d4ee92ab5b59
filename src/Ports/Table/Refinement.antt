-- ===== src/Ports/Table/Refinement.antt =====
-- The maps of `managedBridgePortsInfo` (pkg/server/server.go) against the table they stand for.
use mathlib.Core.Path.{fun_ext}
use bridge_operator.Prelude.{
  Bool, Bool-cases, List, Option, Option-cases, String, [], ap, arith, inl, inr, int_eq, nat_eq,
  none, refl, some, string_eq, sym, ◌==◌, ◌∙◌, ◌∷◌, ◌≡◌,
}
use bridge_operator.GoMap.{GoMap, has, lookup, put, remove}
use bridge_operator.GoMap.Laws.{lookup-put, lookup-remove}
use bridge_operator.Ports.{remove_port_management, set_port_management}
use bridge_operator.Ports.Table.{
  Table, TableOp, add_bridge_op, clear_bridge_op, perform_op, perform_ops, promised, promised_all,
  remove_op, row_of, set_entry, set_op, set_row, view,
}
use bridge_operator.State.{Ports}
use bridge_operator.Types.{interface_eq, vlan_interface_eq}

view-put :
    (b : String) (ports : GoMap String Bool) (m : Ports)
    → view (put b ports m) ≡ set_row b (row_of (some ports)) (view m)
view-put b ports m = fun_ext λ c. elim (Bool-cases (b == c)) [
  | inl same ↦ ground (arith, lookup-put b c ports m, same)
  | inr other ↦ ground (arith, lookup-put b c ports m, other)
]

view-remove : (b : String) (m : Ports) → view (remove b m) ≡ set_row b none (view m)
view-remove b m = fun_ext λ c. elim (Bool-cases (b == c)) [
  | inl same ↦ ground (arith, lookup-remove b c m, same)
  | inr other ↦ ground (arith, lookup-remove b c m, other)
]

row-put :
    (p : String) (v : Bool) (ports : GoMap String Bool)
    → (λ q. lookup q (put p v ports)) ≡ set_entry p (some v) (λ q. lookup q ports)
row-put p v ports = fun_ext λ q. lookup-put p q v ports

row-remove :
    (p : String) (ports : GoMap String Bool)
    → (λ q. lookup q (remove p ports)) ≡ set_entry p none (λ q. lookup q ports)
row-remove p ports = fun_ext λ q. lookup-remove p q ports

view_same :
    (b : String) (ports : GoMap String Bool) (m : Ports)
    → lookup b m ≡ some ports
    → view m ≡ set_row b (row_of (some ports)) (view m)
view_same b ports m e = fun_ext λ c. elim (Bool-cases (b == c)) [
  | inl same ↦ rw same (ap row_of (ap (λ x. lookup x m) (sym ((string_eq.beq_iff b c).0 same)) ∙ e))
  | inr other ↦ rw other refl
]

-- Setting an entry to what it is changes nothing.
set_row-same :
    (b p : String) (ports : GoMap String Bool) (m : Ports)
    → lookup b m ≡ some ports
    → lookup p ports ≡ none
    → view m ≡ set_row b (some (set_entry p none (λ q. lookup q ports))) (view m)
set_row-same b p ports m e free =
    view_same b ports m e
    ∙ ap (λ r. set_row b (some r) (view m)) (fun_ext λ q. ground (arith, string_eq.beq_iff p q))

set_row_twice :
    (b : String) (r : Option (String → Option Bool)) (t : Table)
    → set_row b none (set_row b none (set_row b r t)) ≡ set_row b none t
set_row_twice b r t =
    fun_ext λ c. elim (Bool-cases (b == c)) [ inl same ↦ rw same refl | inr other ↦ rw other refl ]

pub perform_op-view : (o : TableOp) (m : Ports) → view (perform_op o m) ≡ promised o (view m)
unfolding perform_op set_port_management remove_port_management has
perform_op-view (set_op b p v) m = elim (Option-cases (lookup b m)) [
  | inl absent ↦ rw (perform_op, promised, set_port_management, absent) refl
  | inr (ports, e) ↦ elim (Option-cases (lookup p ports)) [
    | inl free ↦
        rw (perform_op, promised, set_port_management, e, free)
          (view-put b (put p v ports) m ∙ ap (λ r. set_row b (some r) (view m)) (row-put p v ports))
    | inr (w, taken) ↦ rw (perform_op, promised, set_port_management, e, taken) refl
  ]
]
perform_op-view (remove_op b p) m = elim (Option-cases (lookup b m)) [
  | inl absent ↦ rw (perform_op, promised, remove_port_management, absent) refl
  | inr (ports, e) ↦ elim (Option-cases (lookup p ports)) [
    | inl free ↦
        rw (perform_op, promised, remove_port_management, has, e, free)
          (set_row-same b p ports m e free)
    | inr (w, taken) ↦
        rw (perform_op, promised, remove_port_management, has, e, taken)
          (view-put b (remove p ports) m
            ∙ ap (λ r. set_row b (some r) (view m)) (row-remove p ports))
  ]
]
perform_op-view (add_bridge_op b) m = elim (Option-cases (lookup b m)) [
  | inl absent ↦ rw (perform_op, promised, has, absent) (view-put b [] m)
  | inr (ports, e) ↦ rw (perform_op, promised, has, e) refl
]
perform_op-view (clear_bridge_op b) m = elim (Option-cases (lookup b m)) [
  | inl absent ↦ rw (perform_op, promised, has, absent) (view-remove b m)
  | inr (ports, e) ↦
      rw (perform_op, promised, has, e)
        (view-remove b (remove b (put b [] m))
          ∙ ap (set_row b none) (view-remove b (put b [] m) ∙ ap (set_row b none) (view-put b [] m))
          ∙ set_row_twice b (row_of (some [])) (view m))
]

-- Any sequence of calls of `SetPortManagement` and `RemovePortManagement`, and of what
-- `SetBridgeManagement` and `UnsetBridgeManagement` do to the ports, has on the table that the maps
-- stand for the effects that are promised for these calls, one after the other.
pub perform_ops-view :
    (os : List TableOp) (m : Ports) → view (perform_ops os m) ≡ promised_all os (view m)
unfolding perform_ops
perform_ops-view [] m = refl
perform_ops-view (o ∷ os) m =
    perform_ops-view os (perform_op o m) ∙ ap (promised_all os) (perform_op-view o m)
