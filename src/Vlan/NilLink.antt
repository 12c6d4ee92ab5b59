-- ===== src/Vlan/NilLink.antt =====
-- `egressVlanInterfaceReconcile` where a lookup fails otherwise than by `LinkNotFoundError`.
use bridge_operator.Prelude.{String, err, failed, false, int_eq, nat_eq, ok, string_eq, ◌≡◌}
use bridge_operator.Netlink.{Kernel, Link}
use bridge_operator.Ports.{set_port, set_port_management}
use bridge_operator.State.{State, deref, gets, modify_ports, panic, panicked, pure, ◌>>=◌}
use bridge_operator.Types.{EgressVlanInterface, interface_eq, vlan_interface_eq}
use bridge_operator.Vlan.{add_below, add_vlan_interface, ensure_vlan, join_bridge, new_vlan}
use bridge_operator.VlanName.{generate_egress_vlan_interface_name}

module _ {W : Type 0} (k : Kernel W) where
  -- If the parent of a VLAN interface is found, and the lookup of the interface itself fails with
  -- an error that is not `LinkNotFoundError`, then the interface is recorded as a port that the
  -- daemon does not manage, and the run panics, without a call.
  add_vlan_interface-panics :
      (br parent : Link) (v : EgressVlanInterface) (text : String) (s : State W)
      → k.link_by_name v.name s.world ≡ ok parent
      → k.link_by_name (generate_egress_vlan_interface_name v) s.world ≡ err (failed text)
      → add_vlan_interface k br v s
        ≡ panicked (record s {
          managed_bridge_ports =
              (set_port_management br.name
                (generate_egress_vlan_interface_name v)
                false
                s.managed_bridge_ports).1;
        })
  unfolding add_vlan_interface ensure_vlan join_bridge add_below new_vlan set_port modify_ports gets
      deref panic pure ◌>>=◌
  add_vlan_interface-panics br parent v text s parent_found failed_lookup =
      rw (parent_found, failed_lookup)
