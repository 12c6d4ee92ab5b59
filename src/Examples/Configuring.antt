-- ===== src/Examples/Configuring.antt =====
-- A new bridge with a physical and a VLAN interface on the small kernel.
use bridge_operator.Prelude.{
  [], ap, beq_refl, contains, int_eq, length, nat_eq, ok, refl, string_eq, suc, sym, true, ◌++◌,
  ◌∙◌, ◌∷◌, ◌≡◌,
}
use bridge_operator.Bridge.Configured.{GrantsBridge, PutsIn}
use bridge_operator.Egress.Masters.{master}
use bridge_operator.Egress.Masters.Reconcile.{wanted_master}
use bridge_operator.Examples.Attaching.{before, br0}
use bridge_operator.Examples.Joining.{added, find-append, lan, small_kernel-GrantsVlans}
use bridge_operator.Examples.World.{
  World, config, find_name, interface, link, server, small_cluster, small_kernel,
}
use bridge_operator.Netlink.{Link, other_device}
use bridge_operator.Server.{
  bridge_conf_matches_node_label, on_bridge_config_add, on_bridge_config_update,
}
use bridge_operator.Server.Attaches.{on_bridge_config_add-attaches, on_bridge_config_add-joins}
use bridge_operator.Server.Masters.{on_bridge_config_update-wanted_master}
use bridge_operator.State.{State, returned}
use bridge_operator.Tracker.{name_eq}
use bridge_operator.Types.{BridgeConfiguration, interface_eq, vlan_interface_eq}
use bridge_operator.VlanName.{generate_egress_vlan_interface_name}

same_ok : {a b : Link} → ok a ≡ ok b → a ≡ b
same_ok e = cc

pub small_kernel-GrantsBridge : GrantsBridge small_kernel
unfolding master
small_kernel-GrantsBridge = record {
  grants_vlans = small_kernel-GrantsVlans;
  device_made = λ new w l free found.
      let made = record new { index = suc (length w) } in
      let here_it_is : find_name new.name (w ++ made ∷ []) ≡ ok made =
        find-append new.name w made ∙ rw (free, beq_refl new.name) refl in
      ap (λ x. x.device) (sym (same_ok (sym here_it_is ∙ rw (added new w free) at found)));
  master-filtering = λ br on w p. refl;
  master-vlan_add = λ l vid a b c d w p. refl;
  master-vlan_del = λ l vid a b c d w p. refl;
}

abbrev two_links : State World
two_links =
    server []
      (link "eth0" 2 0 (other_device "device") ∷ link "eth1" 3 0 (other_device "device") ∷ [])

abbrev wanted : BridgeConfiguration
wanted = config "br9" (interface "eth1" ∷ []) (lan ∷ [])

attached_example :
    PutsIn small_kernel
      (on_bridge_config_add small_kernel (small_cluster []) wanted)
      tt
      wanted
      "eth1"
      two_links
unfolding bridge_conf_matches_node_label contains master
attached_example =
    on_bridge_config_add-attaches small_kernel small_kernel-GrantsBridge (small_cluster []) wanted
      "eth1" two_links refl refl refl refl

vlan_joined_example :
    PutsIn small_kernel
      (on_bridge_config_add small_kernel (small_cluster []) wanted)
      tt
      wanted
      (generate_egress_vlan_interface_name lan)
      two_links
unfolding bridge_conf_matches_node_label contains master
vlan_joined_example =
    on_bridge_config_add-joins small_kernel small_kernel-GrantsBridge (small_cluster []) wanted lan
      two_links refl refl refl refl

abbrev old_wanted : BridgeConfiguration
old_wanted = config "br0" (interface "eth0" ∷ []) (lan ∷ [])

abbrev new_wanted : BridgeConfiguration
new_wanted = config "br0" (interface "eth1" ∷ []) (lan ∷ [])

updated_example :
    (t : State World) × (on_bridge_config_update small_kernel
        (small_cluster [])
        old_wanted
        new_wanted
        before
      ≡ returned tt t)
    × (master small_kernel "eth0" t.world
        ≡ wanted_master small_kernel br0
            (interface "eth0" ∷ [])
            (interface "eth1" ∷ [])
            "eth0"
            before)
unfolding contains
updated_example =
    on_bridge_config_update-wanted_master small_kernel small_kernel-GrantsBridge (small_cluster [])
      old_wanted new_wanted br0 true "eth0" before refl refl (refl, tt) (refl, tt)
