-- ===== src/Threads.antt =====
-- `SetPortManagement` (pkg/server/server.go) while other goroutines change the table. Its two
-- checks are made outside the lock, so it is three steps; `RemovePortManagement` and
-- `UnsetBridgeManagement` work on the table under the lock, so they are one step each. A read of
-- the table that meets a write is taken for one that comes before or after it.
pub mod Serial
pub mod Crash
use bridge_operator.Prelude.{
  Bool, List, String, [], if◌then◌else◌, int_eq, nat_eq, none, some, string_eq, ℕ, ◌==◌, ◌∷◌,
}
use bridge_operator.GoMap.{has, lookup, put, remove}
use bridge_operator.Ports.{remove_port_management}
use bridge_operator.State.{Ports}
use bridge_operator.Tracker.{name_eq}
use bridge_operator.Types.{interface_eq, vlan_interface_eq}

-- The arguments of a call.
pub record SetCall : Type 0 where
  pub bridge : String
  pub port : String
  pub is_managed : Bool

-- Where a call stands; `crashed` is a write to a nil map.
pub data Phase : Type 0 where
  called found_bridge found_no_port written refused crashed : Phase

-- The next step of a call. The last one looks the map of the bridge up again.
unfoldable pub set_step : SetCall → Phase → Ports → Phase × Ports
set_step c called m = (if has c.bridge m then found_bridge else refused, m)
set_step c found_bridge m = elim (lookup c.bridge m) [
  | none ↦ (found_no_port, m)
  | some ports ↦ (if has c.port ports then refused else found_no_port, m)
]
set_step c found_no_port m = elim (lookup c.bridge m) [
  | none ↦ (crashed, m)
  | some ports ↦ (written, put c.bridge (put c.port c.is_managed ports) m)
]
set_step c written m = (written, m)
set_step c refused m = (refused, m)
set_step c crashed m = (crashed, m)

-- The table, and the phase of each goroutine's call.
pub record System : Type 0 where
  pub table : Ports
  pub phase : ℕ → Phase

-- One goroutine makes a step of its call, or another method runs.
pub data Move : Type 0 where
  step : ℕ → Move
  remove_port_of : String → String → Move
  unset_bridge : String → Move

-- What `UnsetBridgeManagement` does to the table.
unfoldable pub clear_bridge : String → Ports → Ports
clear_bridge br m = remove br (if has br m then remove br (put br [] m) else m)

abbrev pub set_phase : (ℕ → Phase) → ℕ → Phase → ℕ → Phase
set_phase f i p j = if i == j then p else f j

unfoldable pub move : (ℕ → SetCall) → Move → System → System
move calls (step i) s =
    let (p, m) = set_step (calls i) (s.phase i) s.table in
    record { table = m; phase = set_phase s.phase i p }
move calls (remove_port_of br port) s = record s {
  table = (remove_port_management br port s.table).1;
}
move calls (unset_bridge br) s = record s { table = clear_bridge br s.table }

unfoldable pub run : (ℕ → SetCall) → List Move → System → System
run calls [] s = s
run calls (m ∷ ms) s = run calls ms (move calls m s)
