-- ===== src/Daemon/Steps.antt =====
-- How to show an invariant of the daemon.
use mathlib.Core.Path.{subst}
use bridge_operator.Prelude.{
  Bool, Error, List, Option, Result, String, ap, err, int_eq, nat_eq, none, ok, some, string_eq,
  ◌≡◌,
}
use bridge_operator.Cluster.{Cluster}
use bridge_operator.Daemon.{
  Job, Reach, Step, bridge_info_updater, bridge_port_watcher, bridge_watcher, daemon_config, next,
  notified, ran, run_job, start, world_changed,
}
use bridge_operator.Dispatch.{
  Notification, Obj, add_func, config_obj, delete_func, deleted_config, handle_add_bridge_conf,
  handle_delete_bridge_conf, handle_update_bridge_conf, notify, register_event_handler,
  run_deletion, server_handler, update_func,
}
use bridge_operator.GoMap.{GoMap}
use bridge_operator.InfoUpdate.{bridge_info_update, delete_orphan, found_info, report_bridge}
use bridge_operator.Netlink.{Kernel, Link}
use bridge_operator.PortWatch.{
  bridge_port_watch, check_bridge, check_ports, note_link, note_master, note_port,
}
use bridge_operator.Server.Steady.{
  Steady, bridge_watch-Keeps, on_bridge_config_add-Keeps, on_bridge_config_delete-Keeps,
  on_bridge_config_update-Keeps,
}
use bridge_operator.State.{M, State, final, for_each, returned}
use bridge_operator.State.Keeps.{Keeps, keeps_rules}
use bridge_operator.Tracker.{name_eq}
use bridge_operator.Types.{BridgeConfiguration, BridgeInformation, interface_eq, vlan_interface_eq}

-- An invariant that does not look at the world.
pub record IsInvariant {W : Type 0} (k : Kernel W) (c : Cluster W) (P : State W → Type 0)
    : Type 0 where
  pub steady : Steady k c P
  pub world_keeps : (w : W) (s : State W) → P s → P (record s { world = w })

module _ {W : Type 0} (k : Kernel W) (c : Cluster W) {P : State W → Type 0}
    (inv : IsInvariant k c P) where
  open inv use {steady, world_keeps}
  open steady use {stable, request_keeps}
  open stable use {set_keeps, remove_keeps}

  note_port-Keeps :
      (br port : String) (o : Option (GoMap String Bool)) → Keeps P (note_port br port o)
  unfolding note_port
  note_port-Keeps br port none = search keeps_rules
  note_port-Keeps br port (some ports) = search (keeps_rules, set_keeps)

  note_master-Keeps : (port : String) (r : Result Link) → Keeps P (note_master port r)
  unfolding note_master
  note_master-Keeps port (err e) = search keeps_rules
  note_master-Keeps port (ok link) = search (keeps_rules, note_port-Keeps)

  note_link-Keeps : (link : Link) → Keeps P (note_link k link)
  unfolding note_link
  note_link-Keeps link = search (keeps_rules, note_master-Keeps)

  check_ports-Keeps :
      (br : String) (r : Result Link) (ports : List String) → Keeps P (check_ports k br r ports)
  unfolding check_ports
  check_ports-Keeps br (err e) ports = search keeps_rules
  check_ports-Keeps br (ok link) ports = search (keeps_rules, remove_keeps) depth 8

  check_bridge-Keeps : (br : String) → Keeps P (check_bridge k br)
  unfolding check_bridge
  check_bridge-Keeps br = search (keeps_rules, check_ports-Keeps)

  pub bridge_port_watch-Keeps : Keeps P (bridge_port_watch k)
  unfolding bridge_port_watch
  bridge_port_watch-Keeps = search (keeps_rules, note_link-Keeps, check_bridge-Keeps) depth 8

  delete_orphan-Keeps : (info : BridgeInformation) → Keeps P (delete_orphan c info)
  unfolding delete_orphan
  delete_orphan-Keeps info = search (keeps_rules, request_keeps) depth 8

  found_info-Keeps :
      (name : String) (got : BridgeInformation × Option Error) → Keeps P (found_info c name got)
  unfolding found_info
  found_info-Keeps name (info, none) = search keeps_rules
  found_info-Keeps name (info, some e) = search (keeps_rules, request_keeps)

  report_bridge-Keeps : (br : String) → Keeps P (report_bridge c br)
  unfolding report_bridge
  report_bridge-Keeps br = search (keeps_rules, request_keeps, found_info-Keeps) depth 10

  pub bridge_info_update-Keeps : Keeps P (bridge_info_update c)
  unfolding bridge_info_update
  bridge_info_update-Keeps = search (keeps_rules, delete_orphan-Keeps, report_bridge-Keeps) depth 8

  add-Keeps : (obj : Obj) → Keeps P (handle_add_bridge_conf (daemon_config k c) obj)
  unfolding handle_add_bridge_conf daemon_config register_event_handler server_handler for_each
  add-Keeps (config_obj config) = search (keeps_rules, on_bridge_config_add-Keeps k c steady config)
  add-Keeps _ = search keeps_rules

  update-Keeps : (o n : Obj) → Keeps P (handle_update_bridge_conf (daemon_config k c) o n)
  unfolding handle_update_bridge_conf daemon_config register_event_handler server_handler for_each
  update-Keeps (config_obj a) (config_obj b) =
      search (keeps_rules, on_bridge_config_update-Keeps k c steady a b)
  update-Keeps _ _ = search keeps_rules

  run_handlers-Keeps :
      (o : Option BridgeConfiguration) → Keeps P (run_deletion (daemon_config k c) o)
  unfolding run_deletion daemon_config register_event_handler server_handler for_each
  run_handlers-Keeps none = search keeps_rules
  run_handlers-Keeps (some config) =
      search (keeps_rules, on_bridge_config_delete-Keeps k c steady config)

  delete-Keeps : (obj : Obj) → Keeps P (handle_delete_bridge_conf (daemon_config k c) obj)
  unfolding handle_delete_bridge_conf
  delete-Keeps obj = run_handlers-Keeps (deleted_config obj)

  notify-Keeps : (n : Notification) → Keeps P (notify (daemon_config k c) n)
  unfolding notify
  notify-Keeps (add_func obj) = add-Keeps obj
  notify-Keeps (update_func o n) = update-Keeps o n
  notify-Keeps (delete_func obj) = delete-Keeps obj

  run_job-Keeps : (job : Job) → Keeps P (run_job k c job)
  unfolding run_job
  run_job-Keeps bridge_watcher = bridge_watch-Keeps k c steady
  run_job-Keeps bridge_info_updater = bridge_info_update-Keeps
  run_job-Keeps bridge_port_watcher = bridge_port_watch-Keeps

  returned-Keeps :
      (m : M W (Unit {0})) (s t : State W) → Keeps P m → m s ≡ returned tt t → P s → P t
  returned-Keeps m s t km e h = subst P (ap final e) (km.at s h)

  Step-Keeps : {s t : State W} → Step k c s t → P s → P t
  Step-Keeps {s} {t} (notified n e) = returned-Keeps _ s t (notify-Keeps n) e
  Step-Keeps {s} {t} (ran job m e) = returned-Keeps _ s t (run_job-Keeps job) e
  Step-Keeps {s} {t} (world_changed w e) = λ h. rw e (world_keeps w s h)

  pub Reach-Keeps : {s t : State W} → Reach k c s t → P s → P t
  Reach-Keeps start h = h
  Reach-Keeps (next r st) h = Step-Keeps st (Reach-Keeps r h)
