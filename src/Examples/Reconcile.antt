-- ===== src/Examples/Reconcile.antt =====
-- The reconciles of a bridge `br0` on a node with the interfaces `eth0` and `eth1`.
use bridge_operator.Prelude.{
  [], contains, false, here, int_eq, nat_eq, pos, refl, some, string_eq, true, ◌++◌, ◌∷◌, ◌≡◌,
}
use bridge_operator.Bridge.{bridge_unconfigured}
use bridge_operator.Bridge.Unconfigure.{bridge_unconfigured-foreign_port}
use bridge_operator.Egress.Spares.{Spares}
use bridge_operator.Examples.World.{
  World, config, default_vlan, differs, interface, link, server, small_cluster, small_kernel,
  small_kernel-IsNamed, small_kernel-KeepsNames,
}
use bridge_operator.Filtering.{NameSet, VidSet, bridge_vlan_id_reconcile, reconcile_ports}
use bridge_operator.Filtering.Plan.{bridge_vlan_id_reconcile-plan, missing, plan}
use bridge_operator.Filtering.SharedSet.{LosesWanted, reconcile_ports-deletes_wanted}
use bridge_operator.GoMap.{has, lookup}
use bridge_operator.Netlink.{BridgeVlanInfo, Link, bridge_device, other_device}
use bridge_operator.Ports.{is_port_managed}
use bridge_operator.Ports.Laws.{port_entry}
use bridge_operator.Server.{on_bridge_config_update}
use bridge_operator.Server.Spares.{on_bridge_config_update-leaves_unmanaged}
use bridge_operator.State.{State, final, returned}
use bridge_operator.State.Issues.{Issues}
use bridge_operator.Tracker.{name_eq}
use bridge_operator.Types.{
  BridgeConfiguration, EgressVlanInterface, interface_eq, vlan_interface_eq,
}
use bridge_operator.VlanName.{generate_egress_vlan_interface_name}
use bridge_operator.VlanName.Injective.{generate_egress_vlan_interface_name-injective, is_ad}

abbrev br0 : Link
br0 = link "br0" 7 0 (bridge_device (some true))

abbrev eth0 : Link
eth0 = link "eth0" 2 7 (other_device "device")

abbrev eth1 : Link
eth1 = link "eth1" 3 7 (other_device "device")

abbrev two_ports : State World
two_ports = server (("br0", ("eth0", true) ∷ ("eth1", false) ∷ []) ∷ []) (br0 ∷ eth0 ∷ eth1 ∷ [])

abbrev blue : BridgeConfiguration
blue = config "br0" (interface "eth0" ∷ []) []

unconfigure_example :
    (bridge_unconfigured small_kernel blue true two_ports
      ≡ bridge_unconfigured small_kernel blue false two_ports)
    × Issues (Spares "br0") two_ports (final (bridge_unconfigured small_kernel blue true two_ports))
unfolding port_entry lookup is_port_managed
unconfigure_example =
    bridge_unconfigured-foreign_port small_kernel small_kernel-IsNamed blue "eth1" two_ports
      ((differs "eth0" "eth1" refl, tt), tt) refl refl

abbrev both_ports : BridgeConfiguration
both_ports = config "br0" (interface "eth0" ∷ interface "eth1" ∷ []) []

spared_example :
    Issues
      (Spares "eth1")
      two_ports
      (final (on_bridge_config_update small_kernel (small_cluster []) both_ports blue two_ports))
unfolding is_port_managed lookup contains
spared_example =
    on_bridge_config_update-leaves_unmanaged small_kernel small_kernel-IsNamed
      small_kernel-KeepsNames (small_cluster []) "eth1" both_ports blue br0 true two_ports refl refl
      refl refl tt

abbrev vlan100 : EgressVlanInterface
vlan100 = record { name = "eth1"; protocol = "802.1q"; id = pos 100 }

vlan_plan_example :
    (t : State World) × (bridge_vlan_id_reconcile small_kernel eth0
        (λ i. default_vlan ∷ [])
        ((10, tt) ∷ [])
        two_ports
      ≡ returned (missing (default_vlan ∷ []) ((10, tt) ∷ [])) t)
    × (t.calls ≡ two_ports.calls ++ plan eth0 (default_vlan ∷ []) ((10, tt) ∷ []))
vlan_plan_example =
    bridge_vlan_id_reconcile-plan small_kernel eth0 (λ i. default_vlan ∷ []) ((10, tt) ∷ [])
      two_ports (tt, tt)

abbrev both_names : NameSet
both_names = ("eth0", tt) ∷ ("eth1", tt) ∷ []

-- An entry with the VLAN id 10.
abbrev ten : BridgeVlanInfo
ten = record { vid = 10; port_vid = false; egress_untag = false }

abbrev wanted_vids : VidSet
wanted_vids = (1, tt) ∷ (10, tt) ∷ []

shared_set_example :
    LosesWanted
      (λ ports.
        final (reconcile_ports small_kernel both_names (λ i. ten ∷ []) ports wanted_vids two_ports))
      two_ports
      eth0
      eth1
      ten
      ten
unfolding has lookup
shared_set_example =
    reconcile_ports-deletes_wanted small_kernel both_names (λ i. ten ∷ []) wanted_vids two_ports
      eth0 eth1 ten ten refl refl (tt, tt) (tt, tt) here here refl refl

abbrev no_protocol : EgressVlanInterface
no_protocol = record { name = "eth1"; protocol = ""; id = pos 100 }

vlan_name_example :
    (vlan100.name ≡ no_protocol.name)
    × (vlan100.id ≡ no_protocol.id)
    × (is_ad vlan100 ≡ is_ad no_protocol)
unfolding generate_egress_vlan_interface_name
vlan_name_example = generate_egress_vlan_interface_name-injective vlan100 no_protocol refl
