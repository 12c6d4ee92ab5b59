-- ===== src/Client/Configurations.antt =====
-- `bridgeConfigurations`, the generated client of BridgeConfiguration objects
-- (pkg/client/clientset/versioned/typed/bridgeoperator.k8s.cni.npwg.io/v1alpha1/bridgeconfiguration.go). A method
-- has the request that it sends beside it.
use bridge_operator.Prelude.{Error, List, Option, String, true, ℕ}
use bridge_operator.Client.{
  ListOptions, Request, Rest, body, delete_options, list_options, name, object, options, patch_data,
  resource, rest_delete, rest_get, rest_patch, rest_post, rest_put, sub_resource, timeout,
  timeout_of, versioned_params,
}
use bridge_operator.Types.{BridgeConfiguration}

module _ {O : Type 0} where
  unfoldable pub get_request : String → O → Request O BridgeConfiguration
  get_request n opts =
      versioned_params (options opts) (name n (resource "bridgeconfigurations" rest_get))

  unfoldable pub list_request : ListOptions O → Request O BridgeConfiguration
  unfolding timeout_of
  list_request opts =
      timeout (timeout_of opts)
        (versioned_params (list_options opts) (resource "bridgeconfigurations" rest_get))

  -- `opts.Watch = true` is set in the copy of the options.
  unfoldable pub watch_request : ListOptions O → Request O BridgeConfiguration
  unfolding timeout_of
  watch_request opts =
      let watching = record opts { watch = true } in
      timeout (timeout_of opts)
        (versioned_params (list_options watching) (resource "bridgeconfigurations" rest_get))

  unfoldable pub create_request : BridgeConfiguration → O → Request O BridgeConfiguration
  create_request o opts =
      body (object o) (versioned_params (options opts) (resource "bridgeconfigurations" rest_post))

  unfoldable pub update_request : BridgeConfiguration → O → Request O BridgeConfiguration
  update_request o opts = body (object o) (
      versioned_params (options opts)
        (name o.metadata.name (resource "bridgeconfigurations" rest_put)))

  unfoldable pub delete_request : String → O → Request O BridgeConfiguration
  delete_request n opts =
      body (delete_options opts) (name n (resource "bridgeconfigurations" rest_delete))

  unfoldable pub delete_collection_request : O → ListOptions O → Request O BridgeConfiguration
  unfolding timeout_of
  delete_collection_request opts list_opts = body (delete_options opts) (
      timeout (timeout_of list_opts)
        (versioned_params (list_options list_opts) (resource "bridgeconfigurations" rest_delete)))

  unfoldable pub patch_request :
      String → String → List ℕ → O → List String → Request O BridgeConfiguration
  patch_request n pt bytes opts sub_resources = body (patch_data bytes) (
      versioned_params (options opts)
        (sub_resource sub_resources (name n (resource "bridgeconfigurations" (rest_patch pt)))))

-- The methods.
module _ {W O L V : Type 0} (client : Rest W O BridgeConfiguration L V) where
  unfoldable pub get : String → O → W → BridgeConfiguration × Option Error × W
  unfolding get_request
  get n opts = client.into (get_request n opts)

  unfoldable pub list : ListOptions O → W → L × Option Error × W
  unfolding list_request
  list opts = client.into_list (list_request opts)

  unfoldable pub watch : ListOptions O → W → V × Option Error × W
  unfolding watch_request
  watch opts = client.watching (watch_request opts)

  unfoldable pub create : BridgeConfiguration → O → W → BridgeConfiguration × Option Error × W
  unfolding create_request
  create o opts = client.into (create_request o opts)

  unfoldable pub update : BridgeConfiguration → O → W → BridgeConfiguration × Option Error × W
  unfolding update_request
  update o opts = client.into (update_request o opts)

  unfoldable pub delete : String → O → W → Option Error × W
  unfolding delete_request
  delete n opts = client.error (delete_request n opts)

  unfoldable pub delete_collection : O → ListOptions O → W → Option Error × W
  unfolding delete_collection_request
  delete_collection opts list_opts = client.error (delete_collection_request opts list_opts)

  unfoldable pub patch :
      String → String → List ℕ → O → List String → W → BridgeConfiguration × Option Error × W
  unfolding patch_request
  patch n pt bytes opts sub_resources = client.into (patch_request n pt bytes opts sub_resources)
