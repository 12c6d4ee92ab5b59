-- ===== src/Server/Watch.antt =====
-- `bridgeWatch` runs over every configuration of the cluster, whichever nodes it selects.
use bridge_operator.Prelude.{Error, List, err, int_eq, nat_eq, ok, string_eq, ◌∷◌, ◌≡◌}
use bridge_operator.Bridge.{bridge_reconcile}
use bridge_operator.Cluster.{Cluster}
use bridge_operator.Filtering.{bridge_vlan_filtering_reconcile}
use bridge_operator.Netlink.{Kernel}
use bridge_operator.Server.{bridge_watch}
use bridge_operator.State.{
  M, Outcome, State, continue, deref, for_each, gets, panic, panicked, returned, ◌>>=◌,
}
use bridge_operator.Types.{BridgeConfiguration, interface_eq, vlan_interface_eq}

abbrev pub IsPanic : {W A : Type 0} → Outcome W A → Type 0
IsPanic (returned a s) = ⊥
IsPanic (panicked s) = Unit {0}

panics_first :
    {W A B : Type 0} (o : Outcome W A) (f : A → M W B) → IsPanic o → IsPanic (continue o f)
panics_first (returned a s) f h = absurd h
panics_first (panicked s) f h = tt

module _ {W : Type 0} (k : Kernel W) (c : Cluster W) where
  no_bridge_panics :
      (config : BridgeConfiguration) (e : Error) (s : State W)
      → k.link_by_name config.metadata.name s.world ≡ err e
      → IsPanic (bridge_reconcile k config s)
  unfolding bridge_reconcile bridge_vlan_filtering_reconcile deref panic gets ◌>>=◌
  no_bridge_panics config e s missing_bridge = rw missing_bridge tt

  -- If the kernel, as it stands when `bridgeWatch` runs, does not find the bridge of the configuration
  -- that is listed first, as on a node that this configuration does not select, then `bridgeWatch`
  -- panics.
  pub bridge_watch-panics :
      (config : BridgeConfiguration) (configs : List BridgeConfiguration) (e : Error) (s : State W)
      → c.config_list s.world ≡ ok (config ∷ configs)
      → k.link_by_name config.metadata.name s.world ≡ err e
      → IsPanic (bridge_watch k c s)
  unfolding bridge_watch for_each gets ◌>>=◌
  bridge_watch-panics config configs e s listed missing_bridge = rw listed (
      panics_first (bridge_reconcile k config s) (λ _. for_each configs (bridge_reconcile k))
        (no_bridge_panics config e s missing_bridge))
