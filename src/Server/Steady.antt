-- ===== src/Server/Steady.antt =====
-- How to show an invariant of the handlers.
use bridge_operator.Prelude.{Bool, List, Result, String, err, int_eq, nat_eq, ok, string_eq}
use bridge_operator.Bridge.Lifecycle.{
  bridge_configured-Keeps, bridge_reconcile-Keeps, bridge_unconfigured-Keeps, bridge_update-Keeps,
}
use bridge_operator.Bridge.Stable.{Stable}
use bridge_operator.Cluster.{ApiCall, Cluster}
use bridge_operator.Netlink.{Kernel}
use bridge_operator.Ports.{set_bridge_management, unset_bridge_management}
use bridge_operator.Server.{
  bridge_watch, create_bridge, delete_bridge, on_bridge_config_add, on_bridge_config_delete,
  on_bridge_config_update, watch_configs,
}
use bridge_operator.State.{State, request}
use bridge_operator.State.Keeps.{Keeps, keeps_rules}
use bridge_operator.Types.{BridgeConfiguration, interface_eq, vlan_interface_eq}

-- `P` is kept by all that the handlers change.
pub record Steady {W : Type 0} (k : Kernel W) (c : Cluster W) (P : State W → Type 0) : Type 0 where
  pub stable : Stable k P
  pub request_keeps : (a : ApiCall) → Keeps P (request c a)
  pub manage_keeps : (br : String) (managed : Bool) → Keeps P (set_bridge_management br managed)
  pub unmanage_keeps : (br : String) → Keeps P (unset_bridge_management br)

module _ {W : Type 0} (k : Kernel W) (c : Cluster W) {P : State W → Type 0}
    (st : Steady k c P) where
  open st use {stable, request_keeps, manage_keeps, unmanage_keeps}

  create_bridge-Keeps : (config : BridgeConfiguration) → Keeps P (create_bridge k c config)
  unfolding create_bridge
  create_bridge-Keeps config =
      search (keeps_rules, manage_keeps, bridge_configured-Keeps k stable) depth 9

  delete_bridge-Keeps : (config : BridgeConfiguration) → Keeps P (delete_bridge k c config)
  unfolding delete_bridge
  delete_bridge-Keeps config =
      search (keeps_rules, unmanage_keeps, bridge_unconfigured-Keeps k stable) depth 9

  pub on_bridge_config_add-Keeps :
      (config : BridgeConfiguration) → Keeps P (on_bridge_config_add k c config)
  unfolding on_bridge_config_add
  on_bridge_config_add-Keeps config = search (keeps_rules, create_bridge-Keeps) depth 7

  pub on_bridge_config_update-Keeps :
      (old_config config : BridgeConfiguration)
      → Keeps P (on_bridge_config_update k c old_config config)
  unfolding on_bridge_config_update
  on_bridge_config_update-Keeps old_config config =
      search (keeps_rules, create_bridge-Keeps, delete_bridge-Keeps, bridge_update-Keeps k stable)
        depth 9

  pub on_bridge_config_delete-Keeps :
      (config : BridgeConfiguration) → Keeps P (on_bridge_config_delete k c config)
  unfolding on_bridge_config_delete
  on_bridge_config_delete-Keeps config = search (keeps_rules, delete_bridge-Keeps) depth 7

  watch_configs-Keeps : (r : Result (List BridgeConfiguration)) → Keeps P (watch_configs k c r)
  unfolding watch_configs
  watch_configs-Keeps (err e) = search keeps_rules
  watch_configs-Keeps (ok configs) = search (keeps_rules, bridge_reconcile-Keeps k stable)

  pub bridge_watch-Keeps : Keeps P (bridge_watch k c)
  unfolding bridge_watch
  bridge_watch-Keeps = search (keeps_rules, watch_configs-Keeps)
