-- ===== src/Examples/Runs.antt =====
-- The handlers and the periodic runs on the node `node1`.
use bridge_operator.Prelude.{
  String, [], failed, false, here, if◌then◌else◌, int_eq, keep, nat_eq, none, not_found, ok, refl,
  some, string_eq, there, true, ◌++◌, ◌==◌, ◌∷◌, ◌≡◌,
}
use bridge_operator.Bridge.{bridge_configured, bridge_update, new_bridge, update_found}
use bridge_operator.Cluster.{Cluster}
use bridge_operator.Daemon.{daemon_config, new_server, next, notified, start}
use bridge_operator.Daemon.SameKeys.{Reach-SameKeys, SameKeys}
use bridge_operator.Dispatch.{
  BridgeConfConfig, BridgeConfHandler, add_func, config_obj, deleted_final_state_unknown,
  foreign_obj, handle_add_bridge_conf, handle_delete_bridge_conf, handle_update_bridge_conf, notify,
  register_event_handler, server_handler,
}
use bridge_operator.Dispatch.Registered.{
  handle_delete_bridge_conf-unwraps, register_event_handler-runs_last,
}
use bridge_operator.Egress.{add_interface, difference, egress_interface_reconcile, is_nil}
use bridge_operator.Examples.World.{
  World, blank_info, config, interface, link, server, small_cluster, small_kernel,
  small_kernel-IsNamed,
}
use bridge_operator.Filtering.{bridge_vlan_filtering_reconcile, vlan_filtering}
use bridge_operator.GoMap.{has, keys, lookup, put, remove}
use bridge_operator.InfoUpdate.Reports.{Reports, orphan_names}
use bridge_operator.Netlink.{Link, bridge_device, link_add, other_device}
use bridge_operator.PortWatch.{bridge_port_watch}
use bridge_operator.PortWatch.Complete.{bridge_port_watch-Recorded, has_value}
use bridge_operator.PortWatch.Sound.{IsAttached, bridge_port_watch-IsAttached}
use bridge_operator.Ports.{
  remove_port, remove_port_management, set_bridge_management, set_port, set_port_management,
}
use bridge_operator.Ports.Laws.{port_entry}
use bridge_operator.Server.{
  bridge_conf_matches_node_label, bridge_watch, on_bridge_config_add, on_bridge_config_delete,
  on_bridge_config_update,
}
use bridge_operator.Server.Add.{on_bridge_config_add-existing}
use bridge_operator.Server.Delete.{on_bridge_config_delete-forgets}
use bridge_operator.Server.Records.{finds_nothing, on_bridge_config_add-with_bridge, with_bridge}
use bridge_operator.Server.Update.{on_bridge_config_update-ignores_selector}
use bridge_operator.Server.Watch.{IsPanic, bridge_watch-panics}
use bridge_operator.State.{
  State, deref, final, for_each, gets, modify_bridges, modify_ports, net, netlink, pure, returned,
  ◌>>=◌, ◌>>◌,
}
use bridge_operator.Tracker.{name_eq}
use bridge_operator.Types.{BridgeConfiguration, BridgeInformation, interface_eq, vlan_interface_eq}
use bridge_operator.Vlan.{egress_vlan_interface_reconcile}

abbrev eth0 : Link
eth0 = link "eth0" 2 0 (other_device "device")

abbrev blue : BridgeConfiguration
blue = config "br1" (interface "eth0" ∷ []) []

abbrev green : BridgeConfiguration
green = config "br1" [] []

-- Notified of a configuration, the daemon creates its bridge and attaches `eth0`.
abbrev after_add : State World
after_add = final (
    handle_add_bridge_conf (daemon_config small_kernel (small_cluster [])) (config_obj blue)
      (new_server "node1" (eth0 ∷ [])))

reached_example : SameKeys after_add
unfolding notify handle_add_bridge_conf for_each daemon_config register_event_handler ◌>>=◌
    server_handler on_bridge_config_add gets bridge_conf_matches_node_label set_bridge_management
    has new_server modify_bridges modify_ports bridge_configured netlink is_nil bridge_update
    update_found egress_interface_reconcile difference add_interface set_port
    egress_vlan_interface_reconcile bridge_vlan_filtering_reconcile deref vlan_filtering put
reached_example = Reach-SameKeys small_kernel (small_cluster []) "node1" (eth0 ∷ []) (
    next start (
      notified {s = new_server "node1" (eth0 ∷ [])} {t = after_add} (add_func (config_obj blue))
        refl))

abbrev br0_only : State World
br0_only = server (("br0", []) ∷ []) (eth0 ∷ link "br0" 7 0 (bridge_device (some true)) ∷ [])

update_example :
    (on_bridge_config_update small_kernel (small_cluster []) blue green br0_only
      ≡ (bridge_update small_kernel (some blue) green >> pure tt) br0_only)
    × ((final (
          on_bridge_config_update small_kernel
            (small_cluster [])
            blue
            green
            br0_only)).managed_bridges
        ≡ br0_only.managed_bridges)
update_example =
    on_bridge_config_update-ignores_selector small_kernel (small_cluster []) blue green br0_only

-- The node has `br0`, and not the `br1` of the configuration.
watch_panics_example : IsPanic (bridge_watch small_kernel (small_cluster (blue ∷ [])) br0_only)
watch_panics_example =
    bridge_watch-panics small_kernel (small_cluster (blue ∷ [])) blue [] not_found br0_only refl
      refl

abbrev br1 : Link
br1 = link "br1" 8 0 (bridge_device (some true))

abbrev with_br1 : State World
with_br1 = server [] (eth0 ∷ br1 ∷ [])

existing_bridge_example :
    on_bridge_config_add small_kernel (small_cluster []) blue with_br1
    ≡ returned tt (record with_br1 {
      managed_bridges = put "br1" false with_br1.managed_bridges;
      managed_bridge_ports = put "br1" [] with_br1.managed_bridge_ports;
      calls = with_br1.calls ++ net (link_add (new_bridge "br1")) ∷ [];
      world = with_br1.world;
    })
unfolding bridge_conf_matches_node_label new_bridge has
existing_bridge_example =
    on_bridge_config_add-existing small_kernel (small_cluster []) blue with_br1 br1
      (failed "file exists") with_br1.world refl refl refl refl refl

abbrev red : BridgeConfiguration
red = config "br0" [] []

delete_example :
    (t : State World) × (on_bridge_config_delete small_kernel (small_cluster []) red br0_only
      ≡ returned tt t)
    × ((b : String)
        → (lookup b t.managed_bridges
            ≡ (if red.metadata.name == b then none else lookup b br0_only.managed_bridges))
          × (lookup b t.managed_bridge_ports
              ≡ (if red.metadata.name == b then none else lookup b br0_only.managed_bridge_ports)))
unfolding bridge_conf_matches_node_label
delete_example =
    on_bridge_config_delete-forgets small_kernel small_kernel-IsNamed (small_cluster []) red
      br0_only refl

-- `eth0` is attached to `br0` by another program, and `eth1` has left.
abbrev stale_ports : State World
stale_ports =
    server (("br0", ("eth1", true) ∷ []) ∷ [])
      (link "br0" 7 0 (bridge_device (some true)) ∷ record eth0 { master_index = 7 } ∷ [])

abbrev after_port_watch : State World
after_port_watch = final (bridge_port_watch small_kernel stale_ports)

port_watch_example : IsAttached small_kernel after_port_watch.world "br0" "eth0"
unfolding bridge_port_watch ◌>>=◌ gets for_each lookup has set_port modify_ports keys
    set_port_management put remove_port port_entry remove_port_management remove
port_watch_example =
    bridge_port_watch-IsAttached small_kernel stale_ports after_port_watch refl "br0" "eth0" false
      refl

abbrev handlers : BridgeConfConfig World
handlers = daemon_config small_kernel (small_cluster [])

tombstone_example :
    (handle_delete_bridge_conf handlers (deleted_final_state_unknown (config_obj blue)) br0_only
      ≡ handle_delete_bridge_conf handlers (config_obj blue) br0_only)
    × (handle_delete_bridge_conf handlers foreign_obj br0_only ≡ returned tt br0_only)
    × (handle_delete_bridge_conf handlers (deleted_final_state_unknown foreign_obj) br0_only
        ≡ returned tt br0_only)
    × (handle_delete_bridge_conf handlers
          (deleted_final_state_unknown (deleted_final_state_unknown foreign_obj))
          br0_only
        ≡ returned tt br0_only)
tombstone_example = handle_delete_bridge_conf-unwraps handlers blue foreign_obj br0_only

abbrev server_object : BridgeConfHandler World
server_object = server_handler small_kernel (small_cluster [])

runs_last_example :
    (handle_add_bridge_conf
        (register_event_handler handlers server_object)
        (config_obj blue)
        br0_only
      ≡ (handle_add_bridge_conf handlers (config_obj blue) >> server_object.on_add blue) br0_only)
    × (handle_update_bridge_conf
          (register_event_handler handlers server_object)
          (config_obj green)
          (config_obj blue)
          br0_only
        ≡ (handle_update_bridge_conf handlers (config_obj green) (config_obj blue)
              >> server_object.on_update green blue)
            br0_only)
    × (handle_delete_bridge_conf
          (register_event_handler handlers server_object)
          (config_obj blue)
          br0_only
        ≡ (handle_delete_bridge_conf handlers (config_obj blue) >> server_object.on_delete blue)
            br0_only)
runs_last_example = register_event_handler-runs_last handlers server_object green blue br0_only

-- The cluster has a report of the node for a bridge that is gone.
abbrev old_report : BridgeInformation
old_report = record blank_info {
  metadata = record { name = "node1-br9"; namespace = "" };
  status = record { name = "br9"; node = "node1"; managed = true; ports = [] };
}

abbrev reporting : Cluster World
reporting = record (small_cluster []) { info_list = λ w. ok (old_report ∷ []) }

deleted_report : orphan_names br0_only (old_report ∷ []) ≡ "node1-br9" ∷ []
unfolding keep has
deleted_report = refl

add_example :
    (final (on_bridge_config_add small_kernel (small_cluster []) blue br0_only)).managed_bridges
    ≡ with_bridge "br1"
        (finds_nothing (small_kernel.link_by_name "br1" br0_only.world))
        br0_only.managed_bridges
unfolding bridge_conf_matches_node_label
add_example = on_bridge_config_add-with_bridge small_kernel (small_cluster []) blue br0_only refl

abbrev attached_eth0 : Link
attached_eth0 = record eth0 { master_index = 7 }

abbrev br0 : Link
br0 = link "br0" 7 0 (bridge_device (some true))

recorded_port_example :
    has_value (port_entry "br0" "eth0" after_port_watch.managed_bridge_ports) ≡ true
unfolding has lookup bridge_port_watch ◌>>=◌ gets for_each set_port modify_ports keys
    set_port_management put remove_port remove_port_management remove
recorded_port_example =
    bridge_port_watch-Recorded small_kernel stale_ports after_port_watch (br0 ∷ attached_eth0 ∷ [])
      attached_eth0 br0 refl (there here)
      (record {
        not_zero = refl;
        index = refl;
        by_index = refl;
        master_by_name = refl;
        by_name = refl;
      })
      refl refl
