-- ===== src/Client/Clientset.antt =====
-- How the generated clients are made (pkg/client/clientset/versioned/clientset.go, and
-- typed/bridgeoperator.k8s.cni.npwg.io/v1alpha1/bridgeoperator.k8s.cni.npwg.io_client.go below it).
-- The transports, the rate limiters and the clients of client-go are parameters.
pub mod Ready
use bridge_operator.Prelude.{
  Bool, Option, Result, String, err, failed, false, if◌then◌else◌, int_eq, nat_eq, negsuc, none, ok,
  pos, some, string_eq, suc, true, zero, ℤ, ◌==◌,
}
use bridge_operator.InfoUpdate.{scheme_group_version}
use bridge_operator.Tracker.{name_eq}
use bridge_operator.Types.{interface_eq, vlan_interface_eq}

-- The fields of a `rest.Config` that the clients read or set, and the others.
pub record RestConfig (X Q R N : Type 0) : Type 0 where
  pub user_agent : String
  pub group_version : Option String
  pub api_path : String
  pub negotiated_serializer : Option N
  pub qps : Q
  pub burst : ℤ
  pub rate_limiter : Option R
  pub others : X

-- What is used of client-go: `rest`, `flowcontrol` and `discovery`, and the serializer of the
-- scheme.
pub record RestLibrary (X Q R N H C D : Type 0) : Type 0 where
  pub default_kubernetes_user_agent : String
  pub without_conversion : N
  pub http_client_for : RestConfig X Q R N → Result H
  pub is_positive : Q → Bool
  pub new_token_bucket_rate_limiter : Q → ℤ → R
  pub rest_client_for_config_and_client : RestConfig X Q R N → H → Result C
  pub new_discovery_client_for_config_and_client : RestConfig X Q R N → H → Result D
  pub new_discovery_client : C → D

pub record BridgeoperatorClient (C : Type 0) : Type 0 where
  pub rest_client : C

pub record Clientset (C D : Type 0) : Type 0 where
  pub discovery_client : D
  pub bridgeoperator_client : BridgeoperatorClient C

abbrev pub is_positive_int : ℤ → Bool
is_positive_int (pos zero) = false
is_positive_int (pos (suc n)) = true
is_positive_int (negsuc n) = false

module _ {X Q R N H C D : Type 0} (lib : RestLibrary X Q R N H C D) where
  open lib use {
    default_kubernetes_user_agent, without_conversion, http_client_for, is_positive,
    new_token_bucket_rate_limiter, rest_client_for_config_and_client,
    new_discovery_client_for_config_and_client, new_discovery_client,
  }

  -- `if config.UserAgent == "" { config.UserAgent = rest.DefaultKubernetesUserAgent() }`
  unfoldable pub with_agent : RestConfig X Q R N → RestConfig X Q R N
  with_agent config =
      if config.user_agent == ""
      then record config { user_agent = default_kubernetes_user_agent }
      else config

  -- `setConfigDefaults`, which never fails.
  unfoldable pub set_config_defaults : RestConfig X Q R N → RestConfig X Q R N
  unfolding with_agent
  set_config_defaults config = with_agent (record config {
    group_version = some scheme_group_version;
    api_path = "/apis";
    negotiated_serializer = some without_conversion;
  })

  -- `NewForConfigAndClient` and `NewForConfig` of the client of the group.
  unfoldable pub group_client_with : RestConfig X Q R N → H → Result (BridgeoperatorClient C)
  unfolding set_config_defaults
  group_client_with config h =
      elim (rest_client_for_config_and_client (set_config_defaults config) h) [
        | err e ↦ err e
        | ok client ↦ ok (record { rest_client = client })
      ]

  unfoldable pub group_client : RestConfig X Q R N → Result (BridgeoperatorClient C)
  unfolding set_config_defaults group_client_with
  group_client config = elim (http_client_for (set_config_defaults config)) [
    | err e ↦ err e
    | ok h ↦ group_client_with (set_config_defaults config) h
  ]

  -- `NewForConfigOrDie`: none where it panics.
  unfoldable pub group_client_or_die : RestConfig X Q R N → Option (BridgeoperatorClient C)
  unfolding group_client
  group_client_or_die config = elim (group_client config) [ err e ↦ none | ok client ↦ some client ]

  -- The rate limiter that all clients of the set share: an error where `Burst` is not positive.
  unfoldable pub with_limiter : RestConfig X Q R N → Result (RestConfig X Q R N)
  with_limiter config = elim config.rate_limiter [
    | some limiter ↦ ok config
    | none ↦
        if is_positive config.qps
        then (if is_positive_int config.burst
            then ok (record config {
              rate_limiter = some (new_token_bucket_rate_limiter config.qps config.burst);
            })
            else err (failed "burst is required to be greater than 0"))
        else ok config
  ]

  unfoldable pub discovery_with :
      RestConfig X Q R N → H → BridgeoperatorClient C → Result (Clientset C D)
  discovery_with config h client = elim (new_discovery_client_for_config_and_client config h) [
    | err e ↦ err e
    | ok d ↦ ok (record { discovery_client = d; bridgeoperator_client = client })
  ]

  unfoldable pub clients_with : RestConfig X Q R N → H → Result (Clientset C D)
  unfolding group_client_with discovery_with
  clients_with config h = elim (group_client_with config h) [
    | err e ↦ err e
    | ok client ↦ discovery_with config h client
  ]

  -- `NewForConfigAndClient` of the set of clients.
  unfoldable pub new_for_config_and_client : RestConfig X Q R N → H → Result (Clientset C D)
  unfolding with_limiter clients_with
  new_for_config_and_client config h = elim (with_limiter config) [
    | err e ↦ err e
    | ok limited ↦ clients_with limited h
  ]

  unfoldable pub new_for_config : RestConfig X Q R N → Result (Clientset C D)
  unfolding with_agent new_for_config_and_client
  new_for_config config = elim (http_client_for (with_agent config)) [
    | err e ↦ err e
    | ok h ↦ new_for_config_and_client (with_agent config) h
  ]

  -- `NewForConfigOrDie`: none where it panics.
  unfoldable pub new_for_config_or_die : RestConfig X Q R N → Option (Clientset C D)
  unfolding new_for_config
  new_for_config_or_die config = elim (new_for_config config) [ err e ↦ none | ok cs ↦ some cs ]

  -- `New`, of the client of the group and of the set.
  unfoldable pub new_group_client : C → BridgeoperatorClient C
  new_group_client c = record { rest_client = c }

  unfoldable pub new_clientset : C → Clientset C D
  unfolding new_group_client
  new_clientset c = record {
    discovery_client = new_discovery_client c;
    bridgeoperator_client = new_group_client c;
  }
