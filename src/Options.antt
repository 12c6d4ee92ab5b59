-- ===== src/Options.antt =====
-- The start of the daemon: `Options` (pkg/server/options.go) and the errors of `NewServer`
-- (pkg/server/server.go). What the clients are made of is a parameter.
pub mod Started
pub mod Command
use bridge_operator.Prelude.{
  Error, Option, Result, String, err, if◌then◌else◌, int_eq, nat_eq, none, ok, some, string_eq,
  ◌==◌,
}
use bridge_operator.Daemon.{new_server}
use bridge_operator.State.{State}
use bridge_operator.Tracker.{name_eq}
use bridge_operator.Types.{interface_eq, vlan_interface_eq}

pub record Options : Type 0 where
  pub kubeconfig : String
  pub master : String
  pub hostname_override : String
  pub host_prefix : String

-- `NewOptions`; the stop channel is in Shutdown.
unfoldable pub new_options : Options
new_options = record { kubeconfig = ""; master = ""; hostname_override = ""; host_prefix = "" }

-- What client-go and `utilnode` answer; a configuration of a client is a `C`.
pub record Setup (C : Type 0) : Type 0 where
  pub in_cluster_config : Result C
  -- From a path and the address of a server.
  pub client_config : String → String → Result C
  pub client_error : C → Option Error
  pub bridge_client_error : C → Option Error
  pub get_hostname : String → Result String

unfoldable pub rest_config : {C : Type 0} → Setup C → Options → Result C
rest_config setup o =
    if o.kubeconfig == ""
    then setup.in_cluster_config
    else setup.client_config o.kubeconfig o.master

-- `NewServer` once it has the host's name.
unfoldable pub server_named : {W : Type 0} → W → Result String → Result (State W)
server_named w (err e) = err e
server_named w (ok hostname) = ok (new_server hostname w)

module _ {C W : Type 0} (setup : Setup C) where
  unfoldable pub server_with_config : Options → W → Result C → Result (State W)
  unfolding server_named
  server_with_config o w (err e) = err e
  server_with_config o w (ok config) = elim (setup.client_error config) [
    | some e ↦ err e
    | none ↦ elim (setup.bridge_client_error config) [
      | some e ↦ err e
      | none ↦ server_named w (setup.get_hostname o.hostname_override)
    ]
  ]

  unfoldable pub make_server : Options → W → Result (State W)
  unfolding rest_config server_with_config
  make_server o w = server_with_config o w (rest_config setup o)

  -- `Options.Run` up to the start of the server: it asks for the name again.
  unfoldable pub run_options : Options → W → Result (State W)
  unfolding make_server
  run_options o w = elim (make_server o w) [
    | err e ↦ err e
    | ok s ↦ elim (setup.get_hostname o.hostname_override) [ err e ↦ err e | ok hostname ↦ ok s ]
  ]
