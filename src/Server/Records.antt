-- ===== src/Server/Records.antt =====
-- What `OnBridgeConfigAdd` records in `managedBridges`.
-- The table once a bridge was given to `SetBridgeManagement`.
use bridge_operator.Prelude.{
  Bool, Bool-cases, String, Result, Result-cases, arith, err, false, if◌then◌else◌, inl, inr,
  int_eq, nat_eq, not, ok, string_eq, sym, true, ◌≡◌,
}
use bridge_operator.Bridge.{bridge_configured, bridge_is_configured}
use bridge_operator.Bridge.Lifecycle.{bridge_configured-Keeps}
use bridge_operator.Cluster.{Cluster}
use bridge_operator.GoMap.{GoMap, has, put}
use bridge_operator.Netlink.{Kernel, Link}
use bridge_operator.Ports.{set_bridge_management}
use bridge_operator.Server.{bridge_conf_matches_node_label, create_bridge, on_bridge_config_add}
use bridge_operator.Server.Update.{same_bridges-Stable}
use bridge_operator.State.{State, final, gets, modify_bridges, modify_ports, pure, ◌>>=◌, ◌>>◌}
use bridge_operator.State.Keeps.{Keeps-bind, Keeps-pure, continue-Keeps}
use bridge_operator.Types.{BridgeConfiguration, interface_eq, vlan_interface_eq}

abbrev pub with_bridge : String → Bool → GoMap String Bool → GoMap String Bool
with_bridge name managed m = if has name m then m else put name managed m

-- The lookup of a name gives no link.
abbrev pub finds_nothing : Result Link → Bool
finds_nothing (err e) = true
finds_nothing (ok link) = false

module _ {W : Type 0} (k : Kernel W) (c : Cluster W) where
  not_configured :
      (name : String) (w : W)
      → not (bridge_is_configured k name w).0 ≡ finds_nothing (k.link_by_name name w)
  unfolding bridge_is_configured
  not_configured name w = elim (Result-cases (k.link_by_name name w)) [
    | inl (e, missing) ↦ rw missing (ground arith)
    | inr (link, found) ↦ rw found (ground arith)
  ]

  abbrev HasBridges : GoMap String Bool → State W → Type 0
  HasBridges m t = t.managed_bridges ≡ m

  set_bridge_management-HasBridges :
      (name : String) (managed : Bool) (s : State W)
      → HasBridges
          (with_bridge name managed s.managed_bridges)
          (final (set_bridge_management name managed s))
  unfolding set_bridge_management gets pure modify_bridges modify_ports ◌>>=◌
  set_bridge_management-HasBridges name managed s = elim (Bool-cases (has name s.managed_bridges)) [
    | inl known ↦ rw known
    | inr new ↦ elim (Bool-cases (has name s.managed_bridge_ports)) [
      | inl present ↦ rw (new, present)
      | inr absent ↦ rw (new, absent)
    ]
  ]

  -- Given a configuration that selects the node, `OnBridgeConfigAdd` records its bridge, as managed
  -- exactly if the lookup of its name gives no link, be it that there is none or that the lookup
  -- fails, and no other bridge; one that is recorded already stays as it is. This holds also where
  -- creating the bridge fails or panics.
  pub on_bridge_config_add-with_bridge :
      (config : BridgeConfiguration) (s : State W)
      → (bridge_conf_matches_node_label c (c.node_get s.hostname s.world).0 config).0 ≡ true
      → (final (on_bridge_config_add k c config s)).managed_bridges
        ≡ with_bridge config.metadata.name
            (finds_nothing (k.link_by_name config.metadata.name s.world))
            s.managed_bridges
  unfolding on_bridge_config_add create_bridge gets ◌>>=◌
  on_bridge_config_add-with_bridge config s matches =
      let managed = not (bridge_is_configured k config.metadata.name s.world).0 in
      let m = with_bridge config.metadata.name managed s.managed_bridges in
      rw (matches, sym (not_configured config.metadata.name s.world))
        (continue-Keeps {P = HasBridges m} (set_bridge_management config.metadata.name managed s)
          (λ _. bridge_configured k config >> pure tt)
          (set_bridge_management-HasBridges config.metadata.name managed s)
          (λ _.
            Keeps-bind _ _ (bridge_configured-Keeps k (same_bridges-Stable k c m) config)
              (λ _. Keeps-pure tt)))
