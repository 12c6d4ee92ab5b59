-- ===== src/Daemon/Deletes.antt =====
-- The daemon is told that a configuration is gone.
use bridge_operator.Prelude.{
  String, arith, err, int_eq, nat_eq, not_found, ok, refl, string_eq, sym, true, ◌∙◌, ◌≡◌,
}
use bridge_operator.Bridge.Deletes.{OthersNamed}
use bridge_operator.Cluster.{Cluster}
use bridge_operator.Daemon.{Reach, Step, daemon_config, new_server, next}
use bridge_operator.Daemon.Once.{Reach-HoldsOnce}
use bridge_operator.Daemon.SameKeys.{Reach-SameKeys}
use bridge_operator.Dispatch.{
  config_obj, delete_func, deleted_config, handle_delete_bridge_conf, notify,
  register_event_handler, run_deletion, server_handler,
}
use bridge_operator.GoMap.{has}
use bridge_operator.Netlink.{Kernel, Link}
use bridge_operator.Ports.{is_bridge_managed}
use bridge_operator.Server.{bridge_conf_matches_node_label, on_bridge_config_delete}
use bridge_operator.Server.Deletes.{GrantsDeletion, on_bridge_config_delete-deletes}
use bridge_operator.State.{State, for_each, pure, returned, ◌>>=◌}
use bridge_operator.Tracker.{name_eq}
use bridge_operator.Types.{BridgeConfiguration, interface_eq, vlan_interface_eq}

managed-has :
    {W : Type 0} (b : String) (s : State W)
    → is_bridge_managed b s ≡ true
    → has b s.managed_bridges ≡ true
unfolding is_bridge_managed has
managed-has b s h = ground (arith, h)

module _ {W : Type 0} (k : Kernel W) (kernel : GrantsDeletion k) (c : Cluster W) where
  -- The informer's notification runs `OnBridgeConfigDelete` of the server.
  notify-delete :
      (config : BridgeConfiguration) (s t : State W)
      → on_bridge_config_delete k c config s ≡ returned tt t
      → notify (daemon_config k c) (delete_func (config_obj config)) s ≡ returned tt t
  unfolding notify handle_delete_bridge_conf daemon_config register_event_handler server_handler
      for_each run_deletion deleted_config pure ◌>>=◌
  notify-delete config s t e = rw e refl

  -- On a kernel that looks links up by their names and carries out every deletion, so that a link
  -- that was given to `LinkDel` is not found afterwards: whatever the daemon was told before, if it is
  -- told that a configuration is gone that selects the node, whose bridge it manages and finds, and
  -- this bridge has no port that is recorded as not managed but those that the configuration names,
  -- then the daemon goes on to a state in which no link of the name is there any more.
  pub Step-deletes :
      (hostname : String) (w : W) (config : BridgeConfiguration) (br : Link) {s : State W}
      → Reach k c (new_server hostname w) s
      → (bridge_conf_matches_node_label c (c.node_get s.hostname s.world).0 config).0 ≡ true
      → is_bridge_managed config.metadata.name s ≡ true
      → k.link_by_name config.metadata.name s.world ≡ ok br
      → OthersNamed config s.managed_bridge_ports
      → (t : State W) × (notify (daemon_config k c) (delete_func (config_obj config)) s
          ≡ returned tt t)
        × (k.link_by_name config.metadata.name t.world ≡ err not_found)
        × Reach k c (new_server hostname w) t
  Step-deletes hostname w config br {s} reach matches managed found others =
      let same = Reach-SameKeys k c hostname w reach in
      let (t, e, gone) =
        on_bridge_config_delete-deletes k kernel c config br s matches managed found
          (record {
            known =
                sym (same.at_bridge config.metadata.name)
                ∙ managed-has config.metadata.name s managed;
            once = (Reach-HoldsOnce k c hostname w reach).once config.metadata.name;
          })
          others in
      (
        t,
        notify-delete config s t e,
        gone,
        next reach (Step.notified (delete_func (config_obj config)) (notify-delete config s t e)),
      )
