-- ===== src/Dispatch.antt =====
-- `BridgeConfConfig` (pkg/controllers/bridgeconfig.go): the informer's notifications are passed
-- on to the registered handlers. `OnBridgeConfigSynced`, which starts the periodic runs, is in
-- Daemon.
pub mod Registered
use bridge_operator.Prelude.{List, Option, [], int_eq, nat_eq, none, some, string_eq, ◌++◌, ◌∷◌}
use bridge_operator.Cluster.{Cluster}
use bridge_operator.Netlink.{Kernel}
use bridge_operator.Server.{on_bridge_config_add, on_bridge_config_delete, on_bridge_config_update}
use bridge_operator.State.{M, for_each, pure}
use bridge_operator.Types.{BridgeConfiguration, interface_eq, vlan_interface_eq}

-- What an informer hands over as `interface{}`.
pub data Obj : Type 0 where
  config_obj : BridgeConfiguration → Obj
  deleted_final_state_unknown : Obj → Obj
  foreign_obj : Obj

-- What an informer tells: an addition, an update or a deletion.
pub data Notification : Type 0 where
  add_func : Obj → Notification
  update_func : Obj → Obj → Notification
  delete_func : Obj → Notification

-- `BridgeConfHandler`.
pub record BridgeConfHandler (W : Type 0) : Type 0 where
  pub on_add : BridgeConfiguration → M W (Unit {0})
  pub on_update : BridgeConfiguration → BridgeConfiguration → M W (Unit {0})
  pub on_delete : BridgeConfiguration → M W (Unit {0})

pub record BridgeConfConfig (W : Type 0) : Type 0 where
  pub event_handlers : List (BridgeConfHandler W)

-- The methods of `Server`.
unfoldable pub server_handler : {W : Type 0} → Kernel W → Cluster W → BridgeConfHandler W
server_handler k c = record {
  on_add = on_bridge_config_add k c;
  on_update = on_bridge_config_update k c;
  on_delete = on_bridge_config_delete k c;
}

-- `obj.(*BridgeConfiguration)`
unfoldable pub as_config : Obj → Option BridgeConfiguration
as_config (config_obj config) = some config
as_config (deleted_final_state_unknown o) = none
as_config foreign_obj = none

-- `obj.(cache.DeletedFinalStateUnknown)`, and the zero value beside a failed assertion.
unfoldable pub tombstone_obj : Obj → Option Obj
tombstone_obj (config_obj config) = none
tombstone_obj (deleted_final_state_unknown o) = some o
tombstone_obj foreign_obj = none

-- The configuration that a deletion is about, if there is one.
unfoldable pub deleted_config : Obj → Option BridgeConfiguration
unfolding as_config tombstone_obj
deleted_config obj = elim (as_config obj) [
  | some config ↦ some config
  | none ↦ elim (tombstone_obj obj) [ none ↦ none | some inner ↦ as_config inner ]
]

module _ {W : Type 0} where
  unfoldable pub register_event_handler :
      BridgeConfConfig W → BridgeConfHandler W → BridgeConfConfig W
  register_event_handler b h = record { event_handlers = b.event_handlers ++ h ∷ [] }

  unfoldable pub handle_add_bridge_conf : BridgeConfConfig W → Obj → M W (Unit {0})
  unfolding as_config
  handle_add_bridge_conf b obj = elim (as_config obj) [
    | none ↦ pure tt
    | some config ↦ for_each b.event_handlers (λ h. h.on_add config)
  ]

  unfoldable pub handle_update_bridge_conf : BridgeConfConfig W → Obj → Obj → M W (Unit {0})
  unfolding as_config
  handle_update_bridge_conf b old_obj new_obj = elim (as_config old_obj) [
    | none ↦ pure tt
    | some old_config ↦ elim (as_config new_obj) [
      | none ↦ pure tt
      | some config ↦ for_each b.event_handlers (λ h. h.on_update old_config config)
    ]
  ]

  -- The end of `handleDeleteBridgeConf`.
  unfoldable pub run_deletion : BridgeConfConfig W → Option BridgeConfiguration → M W (Unit {0})
  run_deletion b none = pure tt
  run_deletion b (some config) = for_each b.event_handlers (λ h. h.on_delete config)

  unfoldable pub handle_delete_bridge_conf : BridgeConfConfig W → Obj → M W (Unit {0})
  unfolding deleted_config run_deletion
  handle_delete_bridge_conf b obj = run_deletion b (deleted_config obj)

  -- The functions that `NewBridgeConfConfig` gives the informer.
  unfoldable pub notify : BridgeConfConfig W → Notification → M W (Unit {0})
  notify b (add_func obj) = handle_add_bridge_conf b obj
  notify b (update_func old_obj new_obj) = handle_update_bridge_conf b old_obj new_obj
  notify b (delete_func obj) = handle_delete_bridge_conf b obj
