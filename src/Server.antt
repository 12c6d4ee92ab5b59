-- ===== src/Server.antt =====
-- The handlers and the periodic runs of `Server` (pkg/server/server.go).
pub mod Steady
pub mod Update
pub mod Masters
pub mod Spares
pub mod Joins
pub mod Removes
pub mod Records
pub mod Add
pub mod Delete
pub mod Deletes
pub mod Watch
pub mod Attaches
use bridge_operator.Prelude.{
  Bool, Error, List, Option, Result, String, bool_ne, err, false, if◌then◌else◌, int_eq, nat_eq,
  none, not, ok, some, string_eq, true, ◌==◌,
}
use bridge_operator.Bridge.{
  bridge_configured, bridge_is_configured, bridge_reconcile, bridge_unconfigured, bridge_update,
}
use bridge_operator.Cluster.{Cluster, Node}
use bridge_operator.GoMap.{GoMap}
use bridge_operator.Netlink.{Kernel}
use bridge_operator.Ports.{is_bridge_managed, set_bridge_management, unset_bridge_management}
use bridge_operator.State.{M, for_each, gets, pure, ◌>>=◌, ◌>>◌}
use bridge_operator.Types.{BridgeConfiguration, interface_eq, vlan_interface_eq}

module _ {W : Type 0} (c : Cluster W) where
  unfoldable pub selects : Node → Result (GoMap String String) → Bool × Option Error
  selects node (err e) = (false, some e)
  selects node (ok selector) =
      if not (c.selector_matches selector node.labels) then (false, none) else (true, none)

  -- `bridgeConfMatchesNodeLabel`
  unfoldable pub bridge_conf_matches_node_label : Node → BridgeConfiguration → Bool × Option Error
  unfolding selects
  bridge_conf_matches_node_label node config =
      if not (c.selector_size config.spec.node_selector == 0)
      then selects node (c.label_selector_as_map config.spec.node_selector)
      else (true, none)

module _ {W : Type 0} (k : Kernel W) (c : Cluster W) where
  -- `s.Client.CoreV1().Nodes().Get(s.Hostname)`: the object is used also beside an error.
  unfoldable pub get_node : M W Node
  get_node = gets (λ s. (c.node_get s.hostname s.world).0)

  -- The matching branch of `OnBridgeConfigAdd`.
  unfoldable pub create_bridge : BridgeConfiguration → M W (Unit {0})
  create_bridge config = do
    exists ← gets (λ s. (bridge_is_configured k config.metadata.name s.world).0)
    set_bridge_management config.metadata.name (not exists)
    bridge_configured k config
    pure tt

  -- The matching branch of `OnBridgeConfigDelete`.
  unfoldable pub delete_bridge : BridgeConfiguration → M W (Unit {0})
  delete_bridge config = do
    is_managed ← gets (is_bridge_managed config.metadata.name)
    bridge_unconfigured k config is_managed
    unset_bridge_management config.metadata.name
    pure tt

  unfoldable pub on_bridge_config_add : BridgeConfiguration → M W (Unit {0})
  unfolding get_node create_bridge
  on_bridge_config_add config = do
    node ← get_node
    if (bridge_conf_matches_node_label c node config).0 then create_bridge config else pure tt

  -- Both matches are taken of the old configuration, as in the source.
  unfoldable pub on_bridge_config_update :
      BridgeConfiguration → BridgeConfiguration → M W (Unit {0})
  unfolding get_node create_bridge delete_bridge
  on_bridge_config_update old_config config = do
    node ← get_node
    let old_matches = (bridge_conf_matches_node_label c node old_config).0
    let matches = (bridge_conf_matches_node_label c node old_config).0
    if bool_ne matches old_matches
        then (if matches then create_bridge config else delete_bridge config)
        else (do bridge_update k (some old_config) config; pure tt)

  unfoldable pub on_bridge_config_delete : BridgeConfiguration → M W (Unit {0})
  unfolding get_node delete_bridge
  on_bridge_config_delete config = do
    node ← get_node
    if (bridge_conf_matches_node_label c node config).0 then delete_bridge config else pure tt

  unfoldable pub watch_configs : Result (List BridgeConfiguration) → M W (Unit {0})
  watch_configs (err e) = pure tt
  watch_configs (ok configs) = for_each configs (bridge_reconcile k)

  -- `bridgeWatch`, run periodically.
  unfoldable pub bridge_watch : M W (Unit {0})
  unfolding watch_configs
  bridge_watch = do configs ← gets (λ s. c.config_list s.world); watch_configs configs
