-- ===== src/Server/Attaches.antt =====
-- `OnBridgeConfigAdd` (pkg/server/server.go) for a bridge that is not there yet.
use mathlib.Core.Path.{subst}
use bridge_operator.Prelude.{
  Bool, Bool-cases, Error, Option, String, [], ap, contains, err, failed, inl, inr, int_eq, nat_eq,
  none, not, not_found, ok, refl, some, string_eq, true, ◌∙◌, ◌≡◌,
}
use bridge_operator.Bridge.{bridge_configured, bridge_is_configured, new_bridge}
use bridge_operator.Bridge.Configured.{
  GrantsBridge, PutsIn, bridge_configured-attaches, bridge_configured-joins, made_world,
}
use bridge_operator.Cluster.{Cluster}
use bridge_operator.Egress.Masters.{master}
use bridge_operator.Egress.Masters.Reconcile.{of_name}
use bridge_operator.GoMap.{has, put}
use bridge_operator.Netlink.{Kernel}
use bridge_operator.Ports.{set_bridge_management}
use bridge_operator.Server.{
  bridge_conf_matches_node_label, create_bridge, get_node, on_bridge_config_add,
}
use bridge_operator.State.{State, gets, modify_bridges, modify_ports, pure, returned, ◌>>=◌}
use bridge_operator.Types.{
  BridgeConfiguration, EgressVlanInterface, interface_eq, vlan_interface_eq,
}
use bridge_operator.Vlan.Joined.{is_there}
use bridge_operator.VlanName.{generate_egress_vlan_interface_name}

module _ {W : Type 0} (k : Kernel W) (kernel : GrantsBridge k) (c : Cluster W) where
  -- Setting the management of a bridge returns, and leaves the world as it is.
  manages :
      (name : String) (b : Bool) (s : State W)
      → (e : Option Error) × (t : State W) × (set_bridge_management name b s ≡ returned e t)
        × (t.world ≡ s.world)
  unfolding set_bridge_management gets pure modify_bridges modify_ports ◌>>=◌
  manages name b s = elim (Bool-cases (has name s.managed_bridges)) [
    | inl known ↦ (some (failed "already configured in managedBridges"), s, rw known refl, refl)
    | inr new ↦ elim (Bool-cases (has name s.managed_bridge_ports)) [
      | inl present ↦ (
        some (failed "already configured in managedBridgePorts"),
        record s { managed_bridges = put name b s.managed_bridges },
        rw (new, present) refl,
        refl,
      )
      | inr absent ↦ (
        none,
        record s {
          managed_bridges = put name b s.managed_bridges;
          managed_bridge_ports = put name [] s.managed_bridge_ports;
        },
        rw (new, absent) refl,
        refl,
      )
    ]
  ]

  added_of_configured :
      (config : BridgeConfiguration) (q : String) (s : State W)
      → (bridge_conf_matches_node_label c (c.node_get s.hostname s.world).0 config).0 ≡ true
      → ((u : State W) → u.world ≡ s.world → PutsIn k (bridge_configured k config) none config q u)
      → PutsIn k (on_bridge_config_add k c config) tt config q s
  unfolding on_bridge_config_add create_bridge get_node gets pure ◌>>=◌
  added_of_configured config q s matches configured =
      let b = not (bridge_is_configured k config.metadata.name s.world).0 in
      let (e, u, managed, same) = manages config.metadata.name b s in
      let (br, t, found, runs, joined) = configured u same in
      (
        br,
        t,
        subst
            (λ w.
              k.link_by_name config.metadata.name (made_world k (new_bridge config.metadata.name) w)
              ≡ ok br)
            same found,
        rw (matches, create_bridge, managed, runs) refl,
        joined,
      )

  -- If a configuration selects the node, its name is that of no link, and the kernel refuses no
  -- call, then `OnBridgeConfigAdd` makes a bridge of that name and returns; and any physical
  -- interface of the configuration that was there without a master is in this bridge afterwards,
  -- when its VLAN interfaces and its VLAN ids were reconciled too.
  pub on_bridge_config_add-attaches :
      (config : BridgeConfiguration) (p : String) (s : State W)
      → (bridge_conf_matches_node_label c (c.node_get s.hostname s.world).0 config).0 ≡ true
      → k.link_by_name config.metadata.name s.world ≡ err not_found
      → contains (of_name p) config.spec.egress_interfaces ≡ true
      → master k p s.world ≡ some 0
      → PutsIn k (on_bridge_config_add k c config) tt config p s
  on_bridge_config_add-attaches config p s matches free wanted unattached =
      added_of_configured config p s matches (λ u same.
        bridge_configured-attaches k kernel config p u
          (ap (k.link_by_name config.metadata.name) same ∙ free) wanted
          (ap (master k p) same ∙ unattached))

  -- If a configuration selects the node, its name is that of no link, and the kernel refuses no
  -- call, then `OnBridgeConfigAdd` makes a bridge of that name and returns; and any VLAN interface
  -- of the configuration whose parent was there is in this bridge afterwards, whether the interface
  -- was there before or not.
  pub on_bridge_config_add-joins :
      (config : BridgeConfiguration) (v : EgressVlanInterface) (s : State W)
      → (bridge_conf_matches_node_label c (c.node_get s.hostname s.world).0 config).0 ≡ true
      → k.link_by_name config.metadata.name s.world ≡ err not_found
      → contains v config.spec.egress_vlan_interfaces ≡ true
      → is_there (master k v.name s.world) ≡ true
      → PutsIn k
          (on_bridge_config_add k c config)
          tt
          config
          (generate_egress_vlan_interface_name v)
          s
  on_bridge_config_add-joins config v s matches free wanted parent =
      added_of_configured config (generate_egress_vlan_interface_name v) s matches (λ u same.
        bridge_configured-joins k kernel config v u
          (ap (k.link_by_name config.metadata.name) same ∙ free) wanted
          (ap (λ w. is_there (master k v.name w)) same ∙ parent))
