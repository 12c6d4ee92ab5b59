-- ===== src/Daemon.antt =====
-- The daemon as a whole: its handlers and periodic runs, in any order, while the world changes
-- between them. A handler runs as a whole; a run that panics has no next state.
pub mod Steps
pub mod SameKeys
pub mod Once
pub mod Deletes
use bridge_operator.Prelude.{Elem, List, String, [], int_eq, nat_eq, string_eq, ◌∷◌, ◌≡◌}
use bridge_operator.Cluster.{Cluster}
use bridge_operator.Dispatch.{
  BridgeConfConfig, Notification, notify, register_event_handler, server_handler,
}
use bridge_operator.InfoUpdate.{bridge_info_update}
use bridge_operator.Netlink.{Kernel}
use bridge_operator.PortWatch.{bridge_port_watch}
use bridge_operator.Server.{bridge_watch}
use bridge_operator.State.{M, State, returned}
use bridge_operator.Tracker.{name_eq}
use bridge_operator.Types.{interface_eq, vlan_interface_eq}

-- The handlers of the informer, with the server registered (`Server.Run`).
unfoldable pub daemon_config : {W : Type 0} → Kernel W → Cluster W → BridgeConfConfig W
daemon_config k c = register_event_handler (record { event_handlers = [] }) (server_handler k c)

-- The state of `NewServer`: two empty maps.
unfoldable pub new_server : {W : Type 0} → String → W → State W
new_server hostname w = record {
  hostname = hostname;
  managed_bridges = [];
  managed_bridge_ports = [];
  calls = [];
  world = w;
}

-- The runners of `NewServer`.
pub data Job : Type 0 where
  bridge_watcher bridge_info_updater bridge_port_watcher : Job

unfoldable pub run_job : {W : Type 0} → Kernel W → Cluster W → Job → M W (Unit {0})
run_job k c bridge_watcher = bridge_watch k c
run_job k c bridge_info_updater = bridge_info_update c
run_job k c bridge_port_watcher = bridge_port_watch k

-- The runners that are started once the informer's cache is filled.
unfoldable pub on_bridge_config_synced : List Job
on_bridge_config_synced = bridge_watcher ∷ bridge_info_updater ∷ bridge_port_watcher ∷ []

pub data Step {W : Type 0} (k : Kernel W) (c : Cluster W) : State W → State W → Type 0 where
  notified :
      {s t : State W} (n : Notification)
      → notify (daemon_config k c) n s ≡ returned tt t
      → Step k c s t
  ran :
      {s t : State W} (job : Job)
      → Elem job on_bridge_config_synced
      → run_job k c job s ≡ returned tt t
      → Step k c s t
  world_changed : {s t : State W} (w : W) → t ≡ record s { world = w } → Step k c s t

pub data Reach {W : Type 0} (k : Kernel W) (c : Cluster W) (s : State W) : State W → Type 0 where
  start : Reach k c s s
  next : {t u : State W} → Reach k c s t → Step k c t u → Reach k c s u
