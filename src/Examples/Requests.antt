-- ===== src/Examples/Requests.antt =====
-- Requests of the generated clients, and a set of clients.
use bridge_operator.Prelude.{
  String, false, int_eq, nat_eq, none, not, ok, pos, some, string_eq, ℕ, ℤ, ◌==◌, ◌↔◌, ◌≡◌,
}
use bridge_operator.Client.{ListOptions}
use bridge_operator.Client.Agreement.{
  ClientCall, call_update, call_watch, configuration_action, configuration_request,
  information_action, information_request, meaning-request, watching,
}
use bridge_operator.Client.Clientset.{Clientset, RestConfig, RestLibrary, new_for_config}
use bridge_operator.Client.Clientset.Ready.{IsReady, new_for_config-eq-ok}
use bridge_operator.Client.FakeInformations.{update_status_action}
use bridge_operator.Client.Informations.{update_status_request}
use bridge_operator.Client.Meaning.{meaning}
use bridge_operator.Examples.World.{blank_info}
use bridge_operator.Tracker.{name_eq}
use bridge_operator.Types.{BridgeConfiguration, BridgeInformation, interface_eq, vlan_interface_eq}

abbrev some_listing : ListOptions String
some_listing = record { timeout_seconds = some 30; watch = false; selection = "app=bridge" }

-- The options do not say that this is a watch.
abbrev watch_call : ClientCall String BridgeConfiguration
watch_call = call_watch some_listing

abbrev no_options : String
no_options = ""

abbrev put_call : ClientCall String BridgeInformation
put_call = call_update blank_info no_options

requests_example :
    (meaning (λ x. x.metadata.name) (configuration_request watch_call)
      ≡ some (watching (configuration_action watch_call)))
    × (meaning (λ x. x.metadata.name) (information_request put_call)
        ≡ some (watching (information_action put_call)))
    × (meaning (λ x. x.metadata.name) (update_status_request blank_info no_options)
        ≡ some (update_status_action blank_info))
requests_example = meaning-request watch_call put_call blank_info no_options tt tt

-- Clients are texts, and a rate limiter is its burst.
abbrev text_library : RestLibrary String ℕ ℤ String String String String
text_library = record {
  default_kubernetes_user_agent = "agent";
  without_conversion = "json";
  http_client_for = λ config. ok config.others;
  is_positive = λ q. not (q == 0);
  new_token_bucket_rate_limiter = λ q burst. burst;
  rest_client_for_config_and_client = λ config h. ok config.user_agent;
  new_discovery_client_for_config_and_client = λ config h. ok h;
  new_discovery_client = λ c. c;
}

abbrev five_per_second : RestConfig String ℕ ℤ String
five_per_second = record {
  user_agent = "";
  group_version = none;
  api_path = "";
  negotiated_serializer = none;
  qps = 5;
  burst = pos 10;
  rate_limiter = none;
  others = "tls";
}

abbrev two_clients : Clientset String String
two_clients = record {
  discovery_client = "tls";
  bridgeoperator_client = record { rest_client = "agent" };
}

clients_example :
    (new_for_config text_library five_per_second ≡ ok two_clients)
    ↔ IsReady text_library five_per_second two_clients
clients_example = new_for_config-eq-ok text_library five_per_second two_clients
