-- ===== src/Operator.antt =====
-- `main` (main.go): the operator sets up its manager, has a daemon set created, and starts.
pub mod Startup
use bridge_operator.Prelude.{
  Bool, Error, List, Option, String, [], false, int_eq, nat_eq, none, some, string_eq, ℕ, ◌++◌, ◌∷◌,
}
use bridge_operator.DaemonSet.{DaemonSet, get_bridge_information_daemon_set}
use bridge_operator.Tracker.{name_eq}
use bridge_operator.Types.{interface_eq, vlan_interface_eq}

pub record Flags : Type 0 where
  pub metrics_addr : String
  pub probe_addr : String
  pub enable_leader_election : Bool

unfoldable pub default_flags : Flags
default_flags = record {
  metrics_addr = ":8080";
  probe_addr = ":8081";
  enable_leader_election = false;
}

pub record ManagerOptions : Type 0 where
  pub metrics_bind_address : String
  pub port : ℕ
  pub health_probe_bind_address : String
  pub leader_election : Bool
  pub leader_election_id : String

unfoldable pub manager_options : Flags → ManagerOptions
manager_options flags = record {
  metrics_bind_address = flags.metrics_addr;
  port = 9443;
  health_probe_bind_address = flags.probe_addr;
  leader_election = flags.enable_leader_election;
  leader_election_id = "5633f401.k8s.cni.npwg.io";
}

-- The calls of controller-runtime that `main` makes.
pub data ManagerCall : Type 0 where
  new_manager : ManagerOptions → ManagerCall
  setup_bridge_configuration setup_bridge_information : ManagerCall
  add_healthz_check add_readyz_check : String → ManagerCall
  create : DaemonSet → ManagerCall
  start_manager : ManagerCall

-- What controller-runtime does: the error of a call, or none, and the world after it.
abbrev pub Runtime : Type 0 → Type 0
Runtime W = ManagerCall → W → Option Error × W

pub data Exit : Type 0 where
  exit_success exit_failure : Exit

pub record Process (W : Type 0) : Type 0 where
  pub calls : List ManagerCall
  pub world : W

-- The process once a call was made.
unfoldable pub called : {W : Type 0} → ManagerCall → W → Process W → Process W
called c w s = record { calls = s.calls ++ c ∷ []; world = w }

-- Calls of which each error is followed by `os.Exit(1)`.
unfoldable pub run_calls :
    {W : Type 0} → Runtime W → List ManagerCall → Process W → Exit × Process W
unfolding called
run_calls perform [] s = (exit_success, s)
run_calls perform (c ∷ cs) s =
    let (e, w) = perform c s.world in
    let rest = run_calls perform cs (called c w s) in
    elim e [ none ↦ rest | some _ ↦ (exit_failure, called c w s) ]

unfoldable pub startup_calls : (String → String) → Flags → List ManagerCall
unfolding manager_options get_bridge_information_daemon_set
startup_calls env flags =
    new_manager (manager_options flags)
    ∷ setup_bridge_configuration
    ∷ setup_bridge_information
    ∷ add_healthz_check "healthz"
    ∷ add_readyz_check "readyz"
    ∷ create (get_bridge_information_daemon_set env)
    ∷ start_manager
    ∷ []

unfoldable pub main :
    {W : Type 0} → Runtime W → (String → String) → Flags → Process W → Exit × Process W
unfolding run_calls startup_calls
main perform env flags s = run_calls perform (startup_calls env flags) s
