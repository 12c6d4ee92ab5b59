-- ===== src/Examples/Deleting.antt =====
-- A bridge that the daemon made, with a port of its own, is deleted.
use mathlib.Core.Path.{subst}
use text.Mathlib.TextEquality.{eq_iff}
use bridge_operator.Prelude.{
  String, [], arith, err, int_eq, keep, nat_eq, not, not_found, refl, some, string_eq, sym, true,
  ◌==◌, ◌∷◌, ◌≡◌,
}
use bridge_operator.Bridge.{bridge_configured, bridge_is_configured, bridge_update, update_found}
use bridge_operator.Bridge.Deletes.{OthersNamed}
use bridge_operator.Daemon.{Reach, Step, daemon_config, new_server, next, start}
use bridge_operator.Daemon.Deletes.{Step-deletes}
use bridge_operator.Dispatch.{
  add_func, config_obj, delete_func, handle_add_bridge_conf, notify, register_event_handler,
  server_handler,
}
use bridge_operator.Egress.{add_interface, difference, egress_interface_reconcile, is_nil}
use bridge_operator.Examples.World.{
  World, config, find_name, interface, link, small_cluster, small_kernel, small_kernel-IsNamed,
}
use bridge_operator.Filtering.{bridge_vlan_filtering_reconcile, vlan_filtering}
use bridge_operator.GoMap.{has, lookup, put}
use bridge_operator.Netlink.{Link, bridge_device, link_type, other_device}
use bridge_operator.Ports.{is_bridge_managed, set_bridge_management, set_port, set_port_management}
use bridge_operator.Ports.Laws.{port_entry}
use bridge_operator.Server.{bridge_conf_matches_node_label, on_bridge_config_add}
use bridge_operator.Server.Deletes.{GrantsDeletion}
use bridge_operator.State.{
  Ports, State, deref, final, for_each, gets, modify_bridges, modify_ports, netlink, returned,
  ◌>>=◌,
}
use bridge_operator.Tracker.{name_eq}
use bridge_operator.Types.{BridgeConfiguration, interface_eq, vlan_interface_eq}
use bridge_operator.Vlan.{egress_vlan_interface_reconcile}

pub small_kernel-GrantsDeletion : GrantsDeletion small_kernel
unfolding keep
small_kernel-GrantsDeletion = record {
  named = small_kernel-IsNamed;
  gone = λ link w. find-without link.name w;
}
  where
    find-without :
        (n : String) (w : World) → find_name n (keep (λ m. not (m.name == n)) w) ≡ err not_found
    find-without n [] = refl
    find-without n (l ∷ w) = ground (arith, find-without n w)

abbrev eth1 : Link
eth1 = link "eth1" 2 0 (other_device "device")

abbrev with_eth1 : BridgeConfiguration
with_eth1 = config "br1" (interface "eth1" ∷ []) []

-- The daemon was told of the configuration, and has made the bridge and attached `eth1`.
abbrev bridge_made : State World
bridge_made = final (
    handle_add_bridge_conf (daemon_config small_kernel (small_cluster [])) (config_obj with_eth1)
      (new_server "node1" (eth1 ∷ [])))

abbrev own_bridge : Link
own_bridge = link "br1" 2 0 (bridge_device (some true))

abbrev one_port : Ports
one_port = ("br1", ("eth1", true) ∷ []) ∷ []

recorded_ports : bridge_made.managed_bridge_ports ≡ one_port
unfolding handle_add_bridge_conf for_each daemon_config register_event_handler ◌>>=◌ server_handler
    on_bridge_config_add gets bridge_conf_matches_node_label set_bridge_management has new_server
    modify_bridges modify_ports bridge_configured netlink is_nil bridge_update update_found
    egress_interface_reconcile difference add_interface set_port egress_vlan_interface_reconcile
    bridge_vlan_filtering_reconcile deref vlan_filtering put lookup set_port_management
    bridge_is_configured link_type
recorded_ports = refl

only_own_ports : OthersNamed with_eth1 one_port
unfolding port_entry lookup
only_own_ports n h = ground (arith, h, eq_iff "eth1" n)

deleted_example :
    (t : State World) × (notify
        (daemon_config small_kernel (small_cluster []))
        (delete_func (config_obj with_eth1))
        bridge_made
      ≡ returned tt t)
    × (find_name "br1" t.world ≡ err not_found)
    × Reach small_kernel (small_cluster []) (new_server "node1" (eth1 ∷ [])) t
unfolding notify handle_add_bridge_conf for_each daemon_config register_event_handler ◌>>=◌
    server_handler on_bridge_config_add gets bridge_conf_matches_node_label set_bridge_management
    has new_server modify_bridges modify_ports bridge_configured netlink is_nil bridge_update
    update_found egress_interface_reconcile difference add_interface set_port
    egress_vlan_interface_reconcile bridge_vlan_filtering_reconcile deref vlan_filtering put
    is_bridge_managed lookup bridge_is_configured link_type
deleted_example =
    Step-deletes small_kernel small_kernel-GrantsDeletion (small_cluster []) "node1" (eth1 ∷ [])
      with_eth1 own_bridge {s = bridge_made}
      (next start (
        Step.notified {s = new_server "node1" (eth1 ∷ [])} {t = bridge_made}
          (add_func (config_obj with_eth1)) refl))
      refl refl refl (subst (OthersNamed with_eth1) (sym recorded_ports) only_own_ports)
