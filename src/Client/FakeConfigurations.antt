-- ===== src/Client/FakeConfigurations.antt =====
-- `FakeBridgeConfigurations` (pkg/client/clientset/versioned/typed/bridgeoperator.k8s.cni.npwg.io/v1alpha1/fake/fake_bridgeconfiguration.go):
-- the fake client of BridgeConfiguration objects. First the action of each method, then the methods.
use bridge_operator.Prelude.{Bool, Error, List, Option, String, keep, ℕ}
use bridge_operator.Client.{ListOptions}
use bridge_operator.Client.Fake.{
  Action, Fake, answer, answer_list, label_of, root_create, root_delete, root_delete_collection,
  root_get, root_list, root_patch, root_update, root_watch,
}
use bridge_operator.Informers.Typed.{GroupVersionResource}
use bridge_operator.Types.{BridgeConfiguration, BridgeConfigurationList}

abbrev pub bridgeconfigurations_resource : GroupVersionResource
bridgeconfigurations_resource = record {
  group = "bridgeoperator.k8s.cni.npwg.io";
  version = "v1alpha1";
  resource = "bridgeconfigurations";
}

module _ {O : Type 0} where
  unfoldable pub get_action : String → Action O BridgeConfiguration
  get_action n = root_get bridgeconfigurations_resource n

  unfoldable pub list_action : ListOptions O → Action O BridgeConfiguration
  list_action opts = root_list bridgeconfigurations_resource opts

  unfoldable pub watch_action : ListOptions O → Action O BridgeConfiguration
  watch_action opts = root_watch bridgeconfigurations_resource opts

  unfoldable pub create_action : BridgeConfiguration → Action O BridgeConfiguration
  create_action o = root_create bridgeconfigurations_resource o

  unfoldable pub update_action : BridgeConfiguration → Action O BridgeConfiguration
  update_action o = root_update bridgeconfigurations_resource o

  unfoldable pub delete_action : String → O → Action O BridgeConfiguration
  delete_action n opts = root_delete bridgeconfigurations_resource n opts

  unfoldable pub delete_collection_action : ListOptions O → Action O BridgeConfiguration
  delete_collection_action list_opts =
      root_delete_collection bridgeconfigurations_resource list_opts

  unfoldable pub patch_action :
      String → String → List ℕ → List String → Action O BridgeConfiguration
  patch_action n pt bytes sub_resources =
      root_patch bridgeconfigurations_resource n pt bytes sub_resources

-- `list`, with the items that the label matches.
unfoldable pub matching :
    (BridgeConfiguration → Bool) → BridgeConfigurationList → BridgeConfigurationList
matching test l = record {
  type_meta = record { kind = ""; api_version = "" };
  list_meta = l.list_meta;
  items = keep test l.items;
}

module _ {W O V S : Type 0} (fake : Fake W O BridgeConfiguration BridgeConfigurationList V S) where
  unfoldable pub get : String → O → W → Option (Option BridgeConfiguration × Option Error × W)
  unfolding answer
  get n opts w = answer (fake.invokes (get_action n) w)

  unfoldable pub list :
      ListOptions O → W → Option (Option BridgeConfigurationList × Option Error × W)
  unfolding answer_list label_of matching
  list opts w =
      let label = label_of (fake.extract_label opts) fake.everything in
      answer_list (matching (λ item. fake.matches label item.metadata))
        (fake.invokes (list_action opts) w)

  unfoldable pub watch : ListOptions O → W → V × Option Error × W
  watch opts w = fake.invokes_watch (watch_action opts) w

  unfoldable pub create :
      BridgeConfiguration → O → W → Option (Option BridgeConfiguration × Option Error × W)
  unfolding answer
  create o opts w = answer (fake.invokes (create_action o) w)

  unfoldable pub update :
      BridgeConfiguration → O → W → Option (Option BridgeConfiguration × Option Error × W)
  unfolding answer
  update o opts w = answer (fake.invokes (update_action o) w)

  unfoldable pub delete : String → O → W → Option Error × W
  delete n opts w = let (obj, e, w') = fake.invokes (delete_action n opts) w in (e, w')

  unfoldable pub delete_collection : O → ListOptions O → W → Option Error × W
  delete_collection opts list_opts w =
      let (obj, e, w') = fake.invokes (delete_collection_action list_opts) w in (e, w')

  unfoldable pub patch :
      String
      → String
      → List ℕ
      → O
      → List String
      → W
      → Option (Option BridgeConfiguration × Option Error × W)
  unfolding answer
  patch n pt bytes opts sub_resources w =
      answer (fake.invokes (patch_action n pt bytes sub_resources) w)
