-- ===== src/Bridge/Lifecycle.antt =====
-- Invariants of the life of a bridge, on those of the reconciling of its interfaces.
use bridge_operator.Prelude.{
  Bool, List, Option, Result, String, [], err, int_eq, nat_eq, none, ok, some, string_eq, ℕ, ◌∷◌,
}
use bridge_operator.Bridge.{
  bridge_configured, bridge_reconcile, bridge_unconfigured, bridge_update, delete_managed,
  unconfigure_found, update_found,
}
use bridge_operator.Bridge.Stable.{
  Stable, egress_interface_reconcile-Keeps, egress_vlan_interface_reconcile-Keeps,
}
use bridge_operator.Filtering.{
  NameSet, VidSet, add_missing, bridge_vlan_filtering_reconcile, drop_stale, reconcile_ports,
  reconcile_vids,
}
use bridge_operator.GoMap.{GoMap}
use bridge_operator.Netlink.{BridgeVlanInfo, Kernel, Link}
use bridge_operator.State.{State}
use bridge_operator.State.Keeps.{Keeps, keeps_rules}
use bridge_operator.Types.{BridgeConfiguration, interface_eq, vlan_interface_eq}

module _ {W : Type 0} (k : Kernel W) {P : State W → Type 0} (st : Stable k P) where
  open st use {netlink_keeps}

  drop_stale-Keeps :
      (link : Link) (is : List BridgeVlanInfo) (vids : VidSet) → Keeps P (drop_stale k link is vids)
  unfolding drop_stale
  drop_stale-Keeps link [] vids = search keeps_rules
  drop_stale-Keeps link (i ∷ is) vids =
      search (keeps_rules, netlink_keeps, drop_stale-Keeps link is) depth 8

  add_missing-Keeps : (link : Link) (vids : VidSet) → Keeps P (add_missing k link vids)
  unfolding add_missing
  add_missing-Keeps link [] = search (keeps_rules, netlink_keeps)
  add_missing-Keeps link (v ∷ vids) = search (keeps_rules, netlink_keeps)

  reconcile_ports-Keeps :
      (names : NameSet) (info : ℕ → List BridgeVlanInfo) (ports : List Link) (vids : VidSet)
      → Keeps P (reconcile_ports k names info ports vids)
  unfolding reconcile_ports
  reconcile_ports-Keeps names info [] vids = search keeps_rules
  reconcile_ports-Keeps names info (port ∷ ports) vids =
      search
        (keeps_rules, drop_stale-Keeps, add_missing-Keeps, reconcile_ports-Keeps names info ports)
        depth 8

  reconcile_vids-Keeps :
      (config : BridgeConfiguration) (br : Link) (r : Result (ℕ → List BridgeVlanInfo))
      → Keeps P (reconcile_vids k config br r)
  unfolding reconcile_vids
  reconcile_vids-Keeps config br (err e) = search keeps_rules
  reconcile_vids-Keeps config br (ok info) = search (keeps_rules, reconcile_ports-Keeps) depth 7

  pub bridge_vlan_filtering_reconcile-Keeps :
      (config : BridgeConfiguration) (o : Option Link)
      → Keeps P (bridge_vlan_filtering_reconcile k config o)
  unfolding bridge_vlan_filtering_reconcile
  bridge_vlan_filtering_reconcile-Keeps config o =
      search (keeps_rules, netlink_keeps, reconcile_vids-Keeps) depth 12

  update_found-Keeps :
      (o : Option BridgeConfiguration) (config : BridgeConfiguration) (r : Result Link)
      → Keeps P (update_found k o config r)
  unfolding update_found
  update_found-Keeps o config (err e) = search keeps_rules
  update_found-Keeps o config (ok br) =
      search
        (
          keeps_rules,
          egress_interface_reconcile-Keeps k st,
          egress_vlan_interface_reconcile-Keeps k st,
          bridge_vlan_filtering_reconcile-Keeps,
        )
        depth 7

  pub bridge_update-Keeps :
      (o : Option BridgeConfiguration) (config : BridgeConfiguration)
      → Keeps P (bridge_update k o config)
  unfolding bridge_update
  bridge_update-Keeps o config = search (keeps_rules, update_found-Keeps)

  pub bridge_configured-Keeps :
      (config : BridgeConfiguration) → Keeps P (bridge_configured k config)
  unfolding bridge_configured
  bridge_configured-Keeps config = search (keeps_rules, netlink_keeps, bridge_update-Keeps) depth 10

  delete_managed-Keeps :
      (br : Link) (o : Option (GoMap String Bool)) → Keeps P (delete_managed k br o)
  unfolding delete_managed
  delete_managed-Keeps br none = search keeps_rules
  delete_managed-Keeps br (some ports) = search (keeps_rules, netlink_keeps)

  unconfigure_found-Keeps :
      (config : BridgeConfiguration) (managed : Bool) (r : Result Link)
      → Keeps P (unconfigure_found k config managed r)
  unfolding unconfigure_found
  unconfigure_found-Keeps config managed (err e) = search keeps_rules
  unconfigure_found-Keeps config managed (ok br) =
      search
        (
          keeps_rules,
          egress_interface_reconcile-Keeps k st,
          egress_vlan_interface_reconcile-Keeps k st,
          delete_managed-Keeps,
        )
        depth 12

  pub bridge_unconfigured-Keeps :
      (config : BridgeConfiguration) (managed : Bool)
      → Keeps P (bridge_unconfigured k config managed)
  unfolding bridge_unconfigured
  bridge_unconfigured-Keeps config managed = search (keeps_rules, unconfigure_found-Keeps)

  pub bridge_reconcile-Keeps : (config : BridgeConfiguration) → Keeps P (bridge_reconcile k config)
  unfolding bridge_reconcile
  bridge_reconcile-Keeps config = search (keeps_rules, bridge_vlan_filtering_reconcile-Keeps)
