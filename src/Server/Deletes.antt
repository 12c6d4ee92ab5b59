-- ===== src/Server/Deletes.antt =====
-- `OnBridgeConfigDelete` (pkg/server/server.go) and the bridge in the kernel.
use mathlib.Core.Path.{subst}
use bridge_operator.Prelude.{
  String, [], err, if◌then◌else◌, int_eq, nat_eq, none, not_found, ok, refl, string_eq, sym, true,
  ◌++◌, ◌∷◌, ◌≡◌,
}
use bridge_operator.Bridge.Deletes.{OthersNamed, bridge_unconfigured-deletes}
use bridge_operator.Cluster.{Cluster}
use bridge_operator.Egress.Spares.{IsNamed}
use bridge_operator.GoMap.{has, put, remove}
use bridge_operator.Netlink.{Kernel, Link, link_del}
use bridge_operator.Ports.{is_bridge_managed, unset_bridge_management}
use bridge_operator.Ports.Foreign.{KnownBridge}
use bridge_operator.Server.{
  bridge_conf_matches_node_label, delete_bridge, get_node, on_bridge_config_delete,
}
use bridge_operator.State.{
  State, gets, modify_bridges, modify_ports, net, netlink, pure, returned, ◌>>=◌,
}
use bridge_operator.Types.{BridgeConfiguration, interface_eq, vlan_interface_eq}

-- The kernel looks links up by their names, and a link that is deleted is found no more.
pub record GrantsDeletion {W : Type 0} (k : Kernel W) : Type 0 where
  pub named : IsNamed k
  pub gone :
      (link : Link) (w : W)
      → k.link_by_name link.name (k.perform (link_del link) w).1 ≡ err not_found

module _ {W : Type 0} (k : Kernel W) (kernel : GrantsDeletion k) (c : Cluster W) where
  unset_returns :
      (name : String) (s : State W)
      → (t : State W) × (unset_bridge_management name s ≡ returned none t) × (t.world ≡ s.world)
  unfolding unset_bridge_management modify_bridges modify_ports pure ◌>>=◌
  unset_returns name s =
      let m = s.managed_bridge_ports in
      (
        record s {
          managed_bridges =
              if has name s.managed_bridges
              then remove name s.managed_bridges
              else s.managed_bridges;
          managed_bridge_ports =
              remove name (if has name m then remove name (put name [] m) else m);
        },
        refl,
        refl,
      )

  -- If a configuration selects the node, and its bridge is found, is recorded as managed, and has in
  -- the table each port once and none that is not managed but those that the configuration names,
  -- then `OnBridgeConfigDelete` returns, and no link of the name is there any more.
  pub on_bridge_config_delete-deletes :
      (config : BridgeConfiguration) (br : Link) (s : State W)
      → (bridge_conf_matches_node_label c (c.node_get s.hostname s.world).0 config).0 ≡ true
      → is_bridge_managed config.metadata.name s ≡ true
      → k.link_by_name config.metadata.name s.world ≡ ok br
      → KnownBridge config.metadata.name s.managed_bridge_ports
      → OthersNamed config s.managed_bridge_ports
      → (t : State W) × (on_bridge_config_delete k c config s ≡ returned tt t)
        × (k.link_by_name config.metadata.name t.world ≡ err not_found)
  unfolding on_bridge_config_delete delete_bridge get_node netlink gets pure ◌>>=◌
  on_bridge_config_delete-deletes config br s matches managed found known others =
      let named = kernel.named config.metadata.name s.world br found in
      let (u, e) = bridge_unconfigured-deletes k config br s found named known others in
      let deleted : State W = record u {
        calls = u.calls ++ net (link_del br) ∷ [];
        world = (k.perform (link_del br) u.world).1;
      } in
      let (t, e', same) = unset_returns config.metadata.name deleted in
      (
        t,
        rw (matches, managed, e, netlink, e') refl,
        subst (λ n. k.link_by_name n t.world ≡ err not_found) named
            (subst (λ w. k.link_by_name br.name w ≡ err not_found) (sym same)
              (kernel.gone br u.world)),
      )
