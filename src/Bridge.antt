-- ===== src/Bridge.antt =====
-- `bridgeIsConfigured`, `bridgeConfigured`, `bridgeUnconfigured`, `bridgeUpdate` and
-- `bridgeReconcile` (pkg/server/bridgeconfig.go): the life of a bridge.
pub mod Stable
pub mod Lifecycle
pub mod Unconfigure
pub mod Forgets
pub mod Forgotten
pub mod Deletes
pub mod Configured
use bridge_operator.Prelude.{
  Bool, Error, List, Option, Result, String, [], err, failed, false, if◌then◌else◌, int_eq, nat_eq,
  none, ok, some, string_eq, true, ◌&&◌, ◌==◌, ◌∷◌,
}
use bridge_operator.Egress.{egress_interface_reconcile, is_nil}
use bridge_operator.Filtering.{bridge_vlan_filtering_reconcile}
use bridge_operator.GoMap.{GoMap, lookup}
use bridge_operator.Netlink.{
  Kernel, Link, bridge_device, link_add, link_del, link_set_up, link_type,
}
use bridge_operator.State.{M, gets, netlink, pure, ◌>>=◌, ◌>>◌}
use bridge_operator.Types.{
  BridgeConfiguration, EgressInterface, EgressVlanInterface, interface_eq, vlan_interface_eq,
}
use bridge_operator.Vlan.{egress_vlan_interface_reconcile}

-- The `netlink.Bridge` that is to be created.
unfoldable pub new_bridge : String → Link
new_bridge name = record {
  index = 0;
  name = name;
  master_index = 0;
  parent_index = 0;
  tx_q_len = 1000;
  device = bridge_device (some true);
}

unfoldable pub all_managed : GoMap String Bool → Bool
all_managed [] = true
all_managed ((port, managed) ∷ ports) = managed && all_managed ports

egress_interfaces_of : Option BridgeConfiguration → List EgressInterface
egress_interfaces_of none = []
egress_interfaces_of (some config) = config.spec.egress_interfaces

egress_vlan_interfaces_of : Option BridgeConfiguration → List EgressVlanInterface
egress_vlan_interfaces_of none = []
egress_vlan_interfaces_of (some config) = config.spec.egress_vlan_interfaces

to_pointer : Result Link → Option Link
to_pointer (ok link) = some link
to_pointer (err e) = none

module _ {W : Type 0} (k : Kernel W) where
  unfoldable pub bridge_is_configured : String → W → Bool × Option Error
  bridge_is_configured name w = elim (k.link_by_name name w) [
    | err e ↦ (false, none)
    | ok link ↦
        if link_type link == "bridge"
        then (true, none)
        else (true, some (failed "Link is already configured"))
  ]

  -- `bridgeUpdate`, once its bridge was looked up. The errors of the three parts are logged.
  unfoldable pub update_found :
      Option BridgeConfiguration → BridgeConfiguration → Result Link → M W (Option Error)
  unfolding egress_interfaces_of egress_vlan_interfaces_of
  update_found old_config config (err e) = pure (some e)
  update_found old_config config (ok br) = do
    egress_interface_reconcile k br (egress_interfaces_of old_config) config.spec.egress_interfaces
    egress_vlan_interface_reconcile k br (egress_vlan_interfaces_of old_config)
        config.spec.egress_vlan_interfaces
    bridge_vlan_filtering_reconcile k config (some br)
    pure none

  unfoldable pub bridge_update :
      Option BridgeConfiguration → BridgeConfiguration → M W (Option Error)
  bridge_update old_config config = do
    found ← gets (λ s. k.link_by_name config.metadata.name s.world)
    update_found old_config config found

  unfoldable pub bridge_configured : BridgeConfiguration → M W (Option Error)
  unfolding new_bridge
  bridge_configured config = do
    e ← netlink k (link_add (new_bridge config.metadata.name))
    if is_nil e
        then (do
          link ← gets (λ s. k.ensure_index (new_bridge config.metadata.name) s.world)
          e' ← netlink k (link_set_up link)
          if is_nil e' then bridge_update none config else pure e')
        else pure e

  -- The end of `bridgeUnconfigured` for a managed bridge.
  unfoldable pub delete_managed : Link → Option (GoMap String Bool) → M W (Option Error)
  unfolding all_managed
  delete_managed br none = pure (some (failed "failed to delete bridge"))
  delete_managed br (some ports) = if all_managed ports then netlink k (link_del br) else pure none

  unfoldable pub unconfigure_found : BridgeConfiguration → Bool → Result Link → M W (Option Error)
  unfolding delete_managed
  unconfigure_found config is_managed (err e) = pure (some e)
  unconfigure_found config is_managed (ok br) = do
    e ← egress_interface_reconcile k br config.spec.egress_interfaces []
    if is_nil e
        then (do
          e' ← egress_vlan_interface_reconcile k br config.spec.egress_vlan_interfaces []
          if is_nil e'
              then (if is_managed
                  then (do
                    ports ← gets (λ s. lookup config.metadata.name s.managed_bridge_ports)
                    delete_managed br ports)
                  else pure none)
              else pure e')
        else pure e

  unfoldable pub bridge_unconfigured : BridgeConfiguration → Bool → M W (Option Error)
  bridge_unconfigured config is_managed = do
    found ← gets (λ s. k.link_by_name config.metadata.name s.world)
    unconfigure_found config is_managed found

  -- An error of the lookup is logged, and the nil link is used all the same.
  unfoldable pub bridge_reconcile : BridgeConfiguration → M W (Unit {0})
  unfolding to_pointer
  bridge_reconcile config = do
    found ← gets (λ s. k.link_by_name config.metadata.name s.world)
    bridge_vlan_filtering_reconcile k config (to_pointer found)
    pure tt
