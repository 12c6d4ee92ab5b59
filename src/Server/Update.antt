-- ===== src/Server/Update.antt =====
-- `OnBridgeConfigUpdate` and the node selector.
use bridge_operator.Prelude.{
  Bool, String, bool_ne, false, int_eq, nat_eq, refl, some, string_eq, true, ◌≡◌,
}
use bridge_operator.Bridge.{bridge_update}
use bridge_operator.Bridge.Lifecycle.{bridge_update-Keeps}
use bridge_operator.Bridge.Stable.{Stable}
use bridge_operator.Cluster.{Cluster}
use bridge_operator.GoMap.{GoMap}
use bridge_operator.Netlink.{Kernel}
use bridge_operator.Ports.{remove_port, set_port}
use bridge_operator.Server.{on_bridge_config_update}
use bridge_operator.State.{State, final, gets, modify_ports, netlink, pure, ◌>>=◌, ◌>>◌}
use bridge_operator.State.Keeps.{Keeps-bind, Keeps-pure}
use bridge_operator.Types.{BridgeConfiguration, interface_eq, vlan_interface_eq}

bool_ne_self : (b : Bool) → bool_ne b b ≡ false
bool_ne_self true = refl
bool_ne_self false = refl

module _ {W : Type 0} (k : Kernel W) (c : Cluster W) where
  pub update_is_bridge_update :
      (old_config config : BridgeConfiguration) (s : State W)
      → on_bridge_config_update k c old_config config s
        ≡ (bridge_update k (some old_config) config >> pure tt) s
  unfolding on_bridge_config_update gets ◌>>=◌
  update_is_bridge_update old_config config s = rw bool_ne_self

  pub same_bridges-Stable : (m : GoMap String Bool) → Stable k (λ t. t.managed_bridges ≡ m)
  unfolding netlink set_port remove_port modify_ports
  same_bridges-Stable m = record {
    netlink_keeps = λ a. record { at = λ t h. h };
    set_keeps = λ br port managed. record { at = λ t h. h };
    remove_keeps = λ br port. record { at = λ t h. h };
  }

  -- Whatever node selectors the two configurations have, an update only runs `bridgeUpdate`, and
  -- leaves `managedBridges` as it is: no bridge is created or deleted for a changed selector.
  pub on_bridge_config_update-ignores_selector :
      (old_config config : BridgeConfiguration) (s : State W)
      → (on_bridge_config_update k c old_config config s
          ≡ (bridge_update k (some old_config) config >> pure tt) s)
        × ((final (on_bridge_config_update k c old_config config s)).managed_bridges
            ≡ s.managed_bridges)
  on_bridge_config_update-ignores_selector old_config config s = (
    update_is_bridge_update old_config config s,
    rw (update_is_bridge_update old_config config s) (
        (Keeps-bind _ (λ _. pure tt)
            (bridge_update-Keeps k (same_bridges-Stable s.managed_bridges) (some old_config) config)
            (λ _. Keeps-pure tt)).at
          s refl),
  )
