-- ===== src/Ports.antt =====
-- `managedBridgePortsInfo` and the bridge management of `Server` (pkg/server/server.go). The
-- texts of errors, which no code reads, are shortened.
-- The locks are left out: a method runs as a whole, as do the handlers that call it.
pub mod Laws
pub mod Foreign
pub mod Table
use bridge_operator.Prelude.{
  Bool, Error, Option, String, [], failed, false, if◌then◌else◌, int_eq, nat_eq, none, some,
  string_eq,
}
use bridge_operator.GoMap.{has, lookup, put, remove}
use bridge_operator.State.{M, Ports, State, gets, modify_bridges, modify_ports, pure, ◌>>=◌, ◌>>◌}
use bridge_operator.Types.{interface_eq, vlan_interface_eq}

unfoldable pub set_port_management : String → String → Bool → Ports → Option Error × Ports
set_port_management br port is_managed m = elim (lookup br m) [
  | none ↦ (some (failed "no bridge in managedBridgePorts"), m)
  | some ports ↦ elim (lookup port ports) [
    | some val ↦ (some (failed "already configured in managedBridgePorts"), m)
    | none ↦ (none, put br (put port is_managed ports) m)
  ]
]

unfoldable pub remove_port_management : String → String → Ports → Option Error × Ports
remove_port_management br port m = elim (lookup br m) [
  | none ↦ (some (failed "No port in the bridge"), m)
  | some ports ↦
      if has port ports
      then (none, put br (remove port ports) m)
      else (some (failed "No port in the bridge"), m)
]

unfoldable pub is_port_managed : String → String → Ports → Bool
is_port_managed br port m = elim (lookup br m) [
  | none ↦ false
  | some ports ↦ elim (lookup port ports) [ none ↦ false | some val ↦ val ]
]

module _ {W : Type 0} where
  -- The methods as actions, where the caller drops the error.
  unfoldable pub set_port : String → String → Bool → M W (Unit {0})
  set_port br port is_managed = modify_ports (λ m. (set_port_management br port is_managed m).1)

  unfoldable pub remove_port : String → String → M W (Unit {0})
  remove_port br port = modify_ports (λ m. (remove_port_management br port m).1)

  unfoldable pub set_bridge_management : String → Bool → M W (Option Error)
  set_bridge_management br is_managed = do
    known ← gets (λ s. has br s.managed_bridges)
    if known then pure (some (failed "already configured in managedBridges")) else do
      modify_bridges (put br is_managed)
      present ← gets (λ s. has br s.managed_bridge_ports)
      if present
          then pure (some (failed "already configured in managedBridgePorts"))
          else do modify_ports (put br []); pure none

  unfoldable pub unset_bridge_management : String → M W (Option Error)
  unset_bridge_management br = do
    modify_bridges (λ m. if has br m then remove br m else m)
    modify_ports (λ m. if has br m then remove br (put br [] m) else m)
    modify_ports (remove br)
    pure none

  unfoldable pub is_bridge_managed : String → State W → Bool
  is_bridge_managed br s = elim (lookup br s.managed_bridges) [ none ↦ false | some val ↦ val ]
