-- ===== src/Ports/Table.antt =====
-- What `managedBridgePortsInfo` (pkg/server/server.go) promises: a partial function from bridges to
-- partial functions from ports, on which each method has its effect. The order of the entries is
-- forgotten.
pub mod Refinement
use bridge_operator.Prelude.{
  Bool, List, Option, String, [], if◌then◌else◌, int_eq, nat_eq, none, some, string_eq, ◌==◌, ◌∷◌,
}
use bridge_operator.GoMap.{GoMap, has, lookup, put, remove}
use bridge_operator.Ports.{remove_port_management, set_port_management}
use bridge_operator.State.{Ports}
use bridge_operator.Types.{interface_eq, vlan_interface_eq}

abbrev pub Table : Type 0
Table = String → Option (String → Option Bool)

-- The table that the maps stand for.
abbrev pub row_of : Option (GoMap String Bool) → Option (String → Option Bool)
row_of none = none
row_of (some ports) = some (λ p. lookup p ports)

abbrev pub view : Ports → Table
view m b = row_of (lookup b m)

abbrev pub set_row : String → Option (String → Option Bool) → Table → Table
set_row b r t c = if b == c then r else t c

abbrev pub entry_of : Table → String → String → Option Bool
entry_of t b p = elim (t b) [ none ↦ none | some row ↦ row p ]

abbrev pub set_entry : String → Option Bool → (String → Option Bool) → String → Option Bool
set_entry p v row q = if p == q then v else row q

-- The methods that change the table, with the part of `SetBridgeManagement` that does.
pub data TableOp : Type 0 where
  set_op : String → String → Bool → TableOp
  remove_op : String → String → TableOp
  add_bridge_op clear_bridge_op : String → TableOp

-- What each promises. A port is added to a known bridge unless it is there already.
abbrev pub promised : TableOp → Table → Table
promised (set_op b p v) t = elim (t b) [
  | none ↦ t
  | some row ↦ elim (row p) [ some w ↦ t | none ↦ set_row b (some (set_entry p (some v) row)) t ]
]
promised (remove_op b p) t = elim (t b) [
  | none ↦ t
  | some row ↦ set_row b (some (set_entry p none row)) t
]
promised (add_bridge_op b) t = elim (t b) [ none ↦ set_row b (some (λ p. none)) t | some row ↦ t ]
promised (clear_bridge_op b) t = set_row b none t

-- What each does to the maps.
unfoldable pub perform_op : TableOp → Ports → Ports
perform_op (set_op b p v) m = (set_port_management b p v m).1
perform_op (remove_op b p) m = (remove_port_management b p m).1
perform_op (add_bridge_op b) m = if has b m then m else put b [] m
perform_op (clear_bridge_op b) m = remove b (if has b m then remove b (put b [] m) else m)

unfoldable pub perform_ops : List TableOp → Ports → Ports
perform_ops [] m = m
perform_ops (o ∷ os) m = perform_ops os (perform_op o m)

abbrev pub promised_all : List TableOp → Table → Table
promised_all [] t = t
promised_all (o ∷ os) t = promised_all os (promised o t)
