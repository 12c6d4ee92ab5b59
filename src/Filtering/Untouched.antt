-- ===== src/Filtering/Untouched.antt =====
-- Invariants that `bridgeVlanFilteringReconcile` (pkg/server/bridgeconfig.go) leaves untouched, for
-- a link that is a bridge.
use bridge_operator.Prelude.{
  Bool, Error, List, Option, Result, [], err, failed, false, if◌then◌else◌, ok, refl, some, true, ℕ,
  ◌∙◌, ◌∷◌, ◌≡◌,
}
use bridge_operator.Egress.{is_nil}
use bridge_operator.Filtering.{
  NameSet, VidSet, add_missing, bridge_vlan_filtering_reconcile, bridge_vlan_id_reconcile,
  drop_stale, enable_filtering, reconcile_ports, reconcile_vids, vlan_filtering,
}
use bridge_operator.Netlink.{
  BridgeVlanInfo, Kernel, Link, bridge_device, bridge_set_vlan_filtering, bridge_vlan_add,
  bridge_vlan_del,
}
use bridge_operator.State.{M, State, deref, gets, netlink, pure, ◌>>=◌}
use bridge_operator.State.Safe.{Safe, safe_rules}
use bridge_operator.Types.{BridgeConfiguration}

-- What is done to one port.
module _ {W : Type 0} (k : Kernel W) {P : State W → Type 0} (link : Link)
    (adding : (vid : ℕ) (a b : Bool) → Safe P (netlink k (bridge_vlan_add link vid a b false true)))
    (deleting : (vid : ℕ) (a b : Bool)
      → Safe P (netlink k (bridge_vlan_del link vid a b false true))) where
  drop_stale-Safe : (is : List BridgeVlanInfo) (vids : VidSet) → Safe P (drop_stale k link is vids)
  unfolding drop_stale
  drop_stale-Safe [] vids = search safe_rules
  drop_stale-Safe (i ∷ is) vids = search (safe_rules, deleting, drop_stale-Safe is) depth 8

  add_missing-Safe : (vids : VidSet) → Safe P (add_missing k link vids)
  unfolding add_missing
  add_missing-Safe [] = search (safe_rules, adding)
  add_missing-Safe (v ∷ vids) = search (safe_rules, adding)

  pub bridge_vlan_id_reconcile-Safe :
      (info : ℕ → List BridgeVlanInfo) (vids : VidSet)
      → Safe P (bridge_vlan_id_reconcile k link info vids)
  unfolding bridge_vlan_id_reconcile
  bridge_vlan_id_reconcile-Safe info vids =
      search (safe_rules, drop_stale-Safe, add_missing-Safe) depth 8

module _ {W : Type 0} (k : Kernel W) {P : State W → Type 0}
    (enabling : (br : Link) (on : Bool) → Safe P (netlink k (bridge_set_vlan_filtering br on)))
    (adding : (l : Link) (vid : ℕ) (a b c d : Bool)
      → Safe P (netlink k (bridge_vlan_add l vid a b c d)))
    (deleting : (l : Link) (vid : ℕ) (a b c d : Bool)
      → Safe P (netlink k (bridge_vlan_del l vid a b c d))) where
  id_reconcile-Safe :
      (link : Link) (info : ℕ → List BridgeVlanInfo) (vids : VidSet)
      → Safe P (bridge_vlan_id_reconcile k link info vids)
  id_reconcile-Safe link =
      bridge_vlan_id_reconcile-Safe k link (λ vid a b. adding link vid a b false true)
        (λ vid a b. deleting link vid a b false true)

  pub reconcile_ports-Safe :
      (names : NameSet) (info : ℕ → List BridgeVlanInfo) (ports : List Link) (vids : VidSet)
      → Safe P (reconcile_ports k names info ports vids)
  unfolding reconcile_ports
  reconcile_ports-Safe names info [] vids = search safe_rules
  reconcile_ports-Safe names info (port ∷ ports) vids =
      search (safe_rules, id_reconcile-Safe, reconcile_ports-Safe names info ports) depth 8

  reconcile_vids-Safe :
      (config : BridgeConfiguration) (br : Link) (r : Result (ℕ → List BridgeVlanInfo))
      → Safe P (reconcile_vids k config br r)
  unfolding reconcile_vids
  reconcile_vids-Safe config br (err e) = search safe_rules
  reconcile_vids-Safe config br (ok info) = search (safe_rules, reconcile_ports-Safe) depth 7

  -- What is left once the pointers are followed.
  followed : BridgeConfiguration → Link → Bool → M W (Option Error)
  followed config br filtering = do
    e ← enable_filtering k br filtering
    if is_nil e
        then (do info ← gets (λ s. k.bridge_vlan_list s.world); reconcile_vids k config br info)
        else pure (some (failed "failed to set bridge vlan_filtering"))

  followed-Safe :
      (config : BridgeConfiguration) (br : Link) (filtering : Bool)
      → Safe P (followed config br filtering)
  unfolding followed enable_filtering
  followed-Safe config br filtering = search (safe_rules, enabling, reconcile_vids-Safe) depth 8

  follow :
      (config : BridgeConfiguration) (br : Link) (filtering : Bool) (s : State W)
      → br.device ≡ bridge_device (some filtering)
      → bridge_vlan_filtering_reconcile k config (some br) s ≡ followed config br filtering s
  unfolding bridge_vlan_filtering_reconcile followed vlan_filtering deref pure ◌>>=◌
  follow config br filtering s e = rw e refl

  pub bridge_vlan_filtering_reconcile-Safe :
      (config : BridgeConfiguration) (br : Link) (filtering : Bool)
      → br.device ≡ bridge_device (some filtering)
      → Safe P (bridge_vlan_filtering_reconcile k config (some br))
  bridge_vlan_filtering_reconcile-Safe config br filtering e = record {
    at = λ s h.
        let (a, t, returns, g) = (followed-Safe config br filtering).at s h in
        (a, t, follow config br filtering s e ∙ returns, g);
  }
