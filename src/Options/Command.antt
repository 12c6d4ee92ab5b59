-- ===== src/Options/Command.antt =====
-- The command of the daemon: its flags (`AddFlags`, pkg/server/options.go), and `main` up to the
-- start of the server (cmd/bridge-operator-daemon/main.go). The parse of the arguments is cobra's.
pub mod Serves
use bridge_operator.Prelude.{
  Error, List, String, [], err, if◌then◌else◌, int_eq, nat_eq, ok, string_eq, ℕ, ◌==◌, ◌∷◌,
}
use bridge_operator.Options.{Options, Setup, new_options, run_options}
use bridge_operator.State.{State}
use bridge_operator.Tracker.{name_eq}
use bridge_operator.Types.{interface_eq, vlan_interface_eq}

-- `fs.StringVar`: the name of a flag, its default, and the field that it sets.
pub record StringVar : Type 0 where
  pub flag : String
  pub value : String
  pub assign : String → Options → Options

unfoldable pub string_vars : List StringVar
string_vars =
    record {
      flag = "hostname-override";
      value = "";
      assign = λ v o. record o { hostname_override = v };
    }
    ∷ record { flag = "host-prefix"; value = ""; assign = λ v o. record o { host_prefix = v } }
    ∷ record { flag = "kubeconfig"; value = ""; assign = λ v o. record o { kubeconfig = v } }
    ∷ record { flag = "master"; value = ""; assign = λ v o. record o { master = v } }
    ∷ []

-- `StringVar` writes the default into the field.
defaults : List StringVar → Options → Options
defaults [] o = o
defaults (x ∷ xs) o = defaults xs (x.assign x.value o)

unfoldable pub add_flags : Options → Options
unfolding string_vars defaults
add_flags o = defaults string_vars o

-- What the parse does for one flag; those of klog, which `AddGoFlagSet` adds, set no option.
unfoldable pub set_flag : List StringVar → String → String → Options → Options
set_flag [] key v o = o
set_flag (x ∷ xs) key v o =
    let rest = set_flag xs key v o in if x.flag == key then x.assign v o else rest

unfoldable pub set_flags : List (String × String) → Options → Options
unfolding set_flag string_vars
set_flags [] o = o
set_flags ((key, v) ∷ sets) o = set_flags sets (set_flag string_vars key v o)

-- What the parse of the arguments comes to: an error, the wish for what cobra itself prints, which is
-- the help (`--help`) or completions (`__complete`), or the flags that are set, in order, with their
-- values.
pub data Parsed : Type 0 where
  unparsed : Error → Parsed
  cobra_prints : Parsed
  flags_set : List (String × String) → Parsed

-- The process exits with a status, or serves.
pub data Executed (W : Type 0) : Type 0 where
  exited : ℕ → Executed W
  serving : State W → Executed W

module _ {C W : Type 0} (setup : Setup C) where
  -- The `Run` of the command, up to `Server.Run`; `klog.Exit` ends the process with status 1.
  unfoldable pub run_command : Options → W → Executed W
  run_command o w = elim (run_options setup o w) [ err e ↦ exited 1 | ok s ↦ serving s ]

  -- `cmd.Execute()`: it returns an error if the arguments cannot be parsed, and none where it only
  -- prints.
  unfoldable pub execute : (List String → Parsed) → List String → W → Executed W
  unfolding run_command add_flags set_flags new_options
  execute parse args w = elim (parse args) [
    | unparsed e ↦ exited 1
    | cobra_prints ↦ exited 0
    | flags_set sets ↦ run_command (set_flags sets (add_flags new_options)) w
  ]
