-- ===== src/Examples/Start.antt =====
-- The start of the operator and of a daemon.
use bridge_operator.Prelude.{
  List, String, [], failed, if◌then◌else◌, int_eq, nat_eq, none, ok, refl, some, string_eq, ◌==◌,
  ◌↔◌, ◌∷◌, ◌≡◌, ◌⊎◌,
}
use bridge_operator.Daemon.{new_server}
use bridge_operator.Examples.World.{World}
use bridge_operator.Operator.{Process, Runtime, create, default_flags, main}
use bridge_operator.Operator.Startup.{
  Failed, Finished, NotStarted, main-NotStarted, main-Ran, wanted_calls,
}
use bridge_operator.Options.{Setup, new_options}
use bridge_operator.Options.Command.{
  Parsed, execute, exited, flags_set, cobra_prints, serving, unparsed,
}
use bridge_operator.Options.Command.Serves.{execute-Started, last_options}
use bridge_operator.Options.Started.{Started}
use bridge_operator.State.{State}
use bridge_operator.Tracker.{name_eq}
use bridge_operator.Types.{interface_eq, vlan_interface_eq}

abbrev no_env : String → String
no_env key = ""

abbrev at_start : Process World
at_start = record { calls = []; world = [] }

-- The daemon set is there already.
abbrev second_start : Runtime World
second_start (create d) w = (some (failed "already exists"), w)
second_start _ w = (none, w)

abbrev first_start : Runtime World
first_start c w = (none, w)

main_calls_example :
    Finished first_start
      (wanted_calls no_env default_flags)
      at_start
      (main first_start no_env default_flags at_start)
    ⊎ Failed first_start
        (wanted_calls no_env default_flags)
        at_start
        (main first_start no_env default_flags at_start)
main_calls_example = main-Ran first_start no_env default_flags at_start

second_start_example : NotStarted at_start (main second_start no_env default_flags at_start)
second_start_example =
    main-NotStarted second_start no_env default_flags at_start
      (λ w. (failed "already exists", refl))

abbrev in_cluster : Setup String
in_cluster = record {
  in_cluster_config = ok "in-cluster";
  client_config = λ path url. ok path;
  client_error = λ c. none;
  bridge_client_error = λ c. none;
  get_hostname = λ key. ok "node1";
}

abbrev no_links : World
no_links = []

-- A parse that reads pairs of a flag and its value.
abbrev pairs : List String → Parsed
pairs (flag ∷ value ∷ args) = elim (pairs args) [
  | unparsed e ↦ unparsed e
  | cobra_prints ↦ cobra_prints
  | flags_set sets ↦ flags_set ((flag, value) ∷ sets)
]
pairs [] = flags_set []
pairs (flag ∷ []) =
    if flag == "help" then cobra_prints else unparsed (failed "flag needs an argument")

abbrev arguments : List String
arguments = "hostname-override" ∷ "a" ∷ "v" ∷ "4" ∷ "hostname-override" ∷ "b" ∷ "master" ∷ "m" ∷ []

command_example :
    ((execute in_cluster pairs arguments no_links ≡ serving (new_server "node1" no_links)) ↔ (
      (sets : List (String × String)) × (pairs arguments ≡ flags_set sets)
      × Started in_cluster (last_options sets new_options) no_links (new_server "node1" no_links)))
    × ((execute in_cluster pairs arguments no_links ≡ exited 0) ↔ (pairs arguments ≡ cobra_prints))
    × ((execute in_cluster pairs arguments no_links ≡ exited 0)
        ⊎ ((execute in_cluster pairs arguments no_links ≡ exited 1)
            ⊎ ((t : State World) × (execute in_cluster pairs arguments no_links ≡ serving t))))
command_example = execute-Started in_cluster pairs arguments no_links (new_server "node1" no_links)
