-- ===== src/Bridge/Stable.antt =====
-- How to show an invariant of the reconciling of one bridge.
use bridge_operator.Prelude.{
  Bool, List, Option, Result, String, err, failed, int_eq, nat_eq, none, not_found, ok, some,
  string_eq,
}
use bridge_operator.Egress.{
  add_interface, attach, egress_interface_reconcile, remove_interface, unset_master,
}
use bridge_operator.Netlink.{Kernel, Link, NetCall}
use bridge_operator.Ports.{remove_port, set_port}
use bridge_operator.State.{State, netlink}
use bridge_operator.State.Keeps.{Keeps, keeps_rules}
use bridge_operator.Types.{EgressInterface, EgressVlanInterface, interface_eq, vlan_interface_eq}
use bridge_operator.Vlan.{
  add_below, add_vlan_interface, delete_vlan, egress_vlan_interface_reconcile, ensure_vlan,
  join_bridge, remove_vlan_interface,
}

-- `P` is kept by the mutating calls of the kernel `k` and by changes to the ports of a bridge.
pub record Stable {W : Type 0} (k : Kernel W) (P : State W → Type 0) : Type 0 where
  pub netlink_keeps : (c : NetCall) → Keeps P (netlink k c)
  pub set_keeps : (br port : String) (managed : Bool) → Keeps P (set_port br port managed)
  pub remove_keeps : (br port : String) → Keeps P (remove_port br port)

module _ {W : Type 0} (k : Kernel W) {P : State W → Type 0} (st : Stable k P) where
  open st use {netlink_keeps, set_keeps, remove_keeps}

  unset_master-Keeps : (r : Result Link) → Keeps P (unset_master k r)
  unfolding unset_master
  unset_master-Keeps (err e) = search keeps_rules
  unset_master-Keeps (ok link) = search (keeps_rules, netlink_keeps)

  attach-Keeps : (br : Link) (port : String) (r : Result Link) → Keeps P (attach k br port r)
  unfolding attach
  attach-Keeps br port (err e) = search keeps_rules
  attach-Keeps br port (ok link) = search (keeps_rules, netlink_keeps, set_keeps)

  remove_interface-Keeps : (br : Link) (v : EgressInterface) → Keeps P (remove_interface k br v)
  unfolding remove_interface
  remove_interface-Keeps br v = search (keeps_rules, unset_master-Keeps, remove_keeps) depth 8

  add_interface-Keeps : (br : Link) (v : EgressInterface) → Keeps P (add_interface k br v)
  unfolding add_interface
  add_interface-Keeps br v = search (keeps_rules, attach-Keeps)

  pub egress_interface_reconcile-Keeps :
      (br : Link) (olds news : List EgressInterface)
      → Keeps P (egress_interface_reconcile k br olds news)
  unfolding egress_interface_reconcile
  egress_interface_reconcile-Keeps br olds news =
      search (keeps_rules, remove_interface-Keeps, add_interface-Keeps) depth 7

  delete_vlan-Keeps : (r : Result Link) → Keeps P (delete_vlan k r)
  unfolding delete_vlan
  delete_vlan-Keeps (err e) = search keeps_rules
  delete_vlan-Keeps (ok link) = search (keeps_rules, netlink_keeps) depth 8

  remove_vlan_interface-Keeps :
      (br : Link) (v : EgressVlanInterface) → Keeps P (remove_vlan_interface k br v)
  unfolding remove_vlan_interface
  remove_vlan_interface-Keeps br v = search (keeps_rules, delete_vlan-Keeps, remove_keeps) depth 8

  ensure_vlan-Keeps : (br new : Link) (r : Result Link) → Keeps P (ensure_vlan k br new r)
  unfolding ensure_vlan
  ensure_vlan-Keeps br new (err not_found) = search (keeps_rules, netlink_keeps, set_keeps) depth 10
  ensure_vlan-Keeps br new (err (failed t)) = search (keeps_rules, set_keeps)
  ensure_vlan-Keeps br new (ok link) = search (keeps_rules, set_keeps)

  join_bridge-Keeps : (br : Link) (o : Option (Option Link)) → Keeps P (join_bridge k br o)
  unfolding join_bridge
  join_bridge-Keeps br none = search keeps_rules
  join_bridge-Keeps br (some pointer) = search (keeps_rules, netlink_keeps) depth 8

  add_below-Keeps :
      (br : Link) (v : EgressVlanInterface) (r : Result Link) → Keeps P (add_below k br v r)
  unfolding add_below
  add_below-Keeps br v (err e) = search keeps_rules
  add_below-Keeps br v (ok parent) =
      search (keeps_rules, ensure_vlan-Keeps, join_bridge-Keeps) depth 8

  add_vlan_interface-Keeps :
      (br : Link) (v : EgressVlanInterface) → Keeps P (add_vlan_interface k br v)
  unfolding add_vlan_interface
  add_vlan_interface-Keeps br v = search (keeps_rules, add_below-Keeps)

  pub egress_vlan_interface_reconcile-Keeps :
      (br : Link) (olds news : List EgressVlanInterface)
      → Keeps P (egress_vlan_interface_reconcile k br olds news)
  unfolding egress_vlan_interface_reconcile
  egress_vlan_interface_reconcile-Keeps br olds news =
      search (keeps_rules, remove_vlan_interface-Keeps, add_vlan_interface-Keeps) depth 7
