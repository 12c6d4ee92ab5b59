-- ===== src/Client/FakeInformations.antt =====
-- `FakeBridgeInformations` (pkg/client/clientset/versioned/typed/bridgeoperator.k8s.cni.npwg.io/v1alpha1/fake/fake_bridgeinformation.go):
-- the fake client of BridgeInformation objects. First the action of each method, then the methods.
use bridge_operator.Prelude.{Bool, Error, List, Option, String, keep, ℕ}
use bridge_operator.Client.{ListOptions}
use bridge_operator.Client.Fake.{
  Action, Fake, answer, answer_list, label_of, root_create, root_delete, root_delete_collection,
  root_get, root_list, root_patch, root_update, root_update_subresource, root_watch,
}
use bridge_operator.Informers.Typed.{GroupVersionResource}
use bridge_operator.Types.{BridgeInformation, BridgeInformationList}

abbrev pub bridgeinformation_resource : GroupVersionResource
bridgeinformation_resource = record {
  group = "bridgeoperator.k8s.cni.npwg.io";
  version = "v1alpha1";
  resource = "bridgeinformation";
}

module _ {O : Type 0} where
  unfoldable pub get_action : String → Action O BridgeInformation
  get_action n = root_get bridgeinformation_resource n

  unfoldable pub list_action : ListOptions O → Action O BridgeInformation
  list_action opts = root_list bridgeinformation_resource opts

  unfoldable pub watch_action : ListOptions O → Action O BridgeInformation
  watch_action opts = root_watch bridgeinformation_resource opts

  unfoldable pub create_action : BridgeInformation → Action O BridgeInformation
  create_action o = root_create bridgeinformation_resource o

  unfoldable pub update_action : BridgeInformation → Action O BridgeInformation
  update_action o = root_update bridgeinformation_resource o

  unfoldable pub update_status_action : BridgeInformation → Action O BridgeInformation
  update_status_action o = root_update_subresource bridgeinformation_resource "status" o

  unfoldable pub delete_action : String → O → Action O BridgeInformation
  delete_action n opts = root_delete bridgeinformation_resource n opts

  unfoldable pub delete_collection_action : ListOptions O → Action O BridgeInformation
  delete_collection_action list_opts = root_delete_collection bridgeinformation_resource list_opts

  unfoldable pub patch_action : String → String → List ℕ → List String → Action O BridgeInformation
  patch_action n pt bytes sub_resources =
      root_patch bridgeinformation_resource n pt bytes sub_resources

-- `list`, with the items that the label matches.
unfoldable pub matching : (BridgeInformation → Bool) → BridgeInformationList → BridgeInformationList
matching test l = record {
  type_meta = record { kind = ""; api_version = "" };
  list_meta = l.list_meta;
  items = keep test l.items;
}

module _ {W O V S : Type 0} (fake : Fake W O BridgeInformation BridgeInformationList V S) where
  unfoldable pub get : String → O → W → Option (Option BridgeInformation × Option Error × W)
  unfolding answer
  get n opts w = answer (fake.invokes (get_action n) w)

  unfoldable pub list : ListOptions O → W → Option (Option BridgeInformationList × Option Error × W)
  unfolding answer_list label_of matching
  list opts w =
      let label = label_of (fake.extract_label opts) fake.everything in
      answer_list (matching (λ item. fake.matches label item.metadata))
        (fake.invokes (list_action opts) w)

  unfoldable pub watch : ListOptions O → W → V × Option Error × W
  watch opts w = fake.invokes_watch (watch_action opts) w

  unfoldable pub create :
      BridgeInformation → O → W → Option (Option BridgeInformation × Option Error × W)
  unfolding answer
  create o opts w = answer (fake.invokes (create_action o) w)

  unfoldable pub update :
      BridgeInformation → O → W → Option (Option BridgeInformation × Option Error × W)
  unfolding answer
  update o opts w = answer (fake.invokes (update_action o) w)

  unfoldable pub update_status :
      BridgeInformation → O → W → Option (Option BridgeInformation × Option Error × W)
  unfolding answer
  update_status o opts w = answer (fake.invokes (update_status_action o) w)

  unfoldable pub delete : String → O → W → Option Error × W
  delete n opts w = let (obj, e, w') = fake.invokes (delete_action n opts) w in (e, w')

  unfoldable pub delete_collection : O → ListOptions O → W → Option Error × W
  delete_collection opts list_opts w =
      let (obj, e, w') = fake.invokes (delete_collection_action list_opts) w in (e, w')

  unfoldable pub patch :
      String
      → String
      → List ℕ
      → O
      → List String
      → W
      → Option (Option BridgeInformation × Option Error × W)
  unfolding answer
  patch n pt bytes opts sub_resources w =
      answer (fake.invokes (patch_action n pt bytes sub_resources) w)
