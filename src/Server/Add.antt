-- ===== src/Server/Add.antt =====
-- `OnBridgeConfigAdd` where a link of the bridge's name is there already.
use bridge_operator.Prelude.{
  Error, String, [], arith, false, int_eq, nat_eq, ok, some, string_eq, true, ◌++◌, ◌∷◌, ◌≡◌,
}
use bridge_operator.Bridge.{bridge_configured, bridge_is_configured, new_bridge}
use bridge_operator.Cluster.{Cluster}
use bridge_operator.Egress.{is_nil}
use bridge_operator.GoMap.{has, put}
use bridge_operator.Netlink.{Kernel, Link, link_add}
use bridge_operator.Ports.{set_bridge_management}
use bridge_operator.Server.{bridge_conf_matches_node_label, on_bridge_config_add}
use bridge_operator.State.{
  State, gets, modify_bridges, modify_ports, net, netlink, pure, returned, ◌>>=◌,
}
use bridge_operator.Types.{BridgeConfiguration, interface_eq, vlan_interface_eq}

is_configured_of_link :
    {W : Type 0} (k : Kernel W) (name : String) (w : W) (link : Link)
    → k.link_by_name name w ≡ ok link
    → (bridge_is_configured k name w).0 ≡ true
unfolding bridge_is_configured
is_configured_of_link k name w link found = ground arith

module _ {W : Type 0} (k : Kernel W) (c : Cluster W) where
  -- A configuration that selects the node and names a link that is there, for which the kernel
  -- refuses to add a second one, is recorded as a bridge that is not managed and has no ports;
  -- the refused call is the only one made, so its interfaces are never attached.
  pub on_bridge_config_add-existing :
      (config : BridgeConfiguration) (s : State W) (link : Link) (e : Error) (w : W)
      → (bridge_conf_matches_node_label c (c.node_get s.hostname s.world).0 config).0 ≡ true
      → k.link_by_name config.metadata.name s.world ≡ ok link
      → k.perform (link_add (new_bridge config.metadata.name)) s.world ≡ (some e, w)
      → has config.metadata.name s.managed_bridges ≡ false
      → has config.metadata.name s.managed_bridge_ports ≡ false
      → on_bridge_config_add k c config s
        ≡ returned tt (record s {
          managed_bridges = put config.metadata.name false s.managed_bridges;
          managed_bridge_ports = put config.metadata.name [] s.managed_bridge_ports;
          calls = s.calls ++ net (link_add (new_bridge config.metadata.name)) ∷ [];
          world = w;
        })
  unfolding on_bridge_config_add gets pure set_bridge_management modify_bridges modify_ports
      bridge_configured is_nil netlink ◌>>=◌
  on_bridge_config_add-existing config s link e w matches found refused new_bridge_name new_ports =
      rw (
        matches,
        is_configured_of_link k config.metadata.name s.world link found,
        new_bridge_name,
        new_ports,
        refused,
      )
