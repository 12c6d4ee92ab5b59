-- ===== src/Client/Agreement.antt =====
-- The generated clients and their fakes (pkg/client/clientset/versioned) ask for the same.
use bridge_operator.Prelude.{
  List, String, arith, beq_refl, false, int_eq, nat_eq, refl, some, string_eq, true, ℕ, ◌≡◌,
}
use bridge_operator.Client.{ListOptions, Request}
use bridge_operator.Client.Fake.{Action, root_watch}
use bridge_operator.Client.Meaning.{meaning}
use bridge_operator.Tracker.{name_eq}
use bridge_operator.Types.{BridgeConfiguration, BridgeInformation, interface_eq, vlan_interface_eq}
use bridge_operator.Client.Configurations
use bridge_operator.Client.Informations
use bridge_operator.Client.FakeConfigurations
use bridge_operator.Client.FakeInformations

-- A call of one of the methods that both clients have, with its arguments.
pub data ClientCall (O T : Type 0) : Type 0 where
  call_get : String → O → ClientCall O T
  call_list call_watch : ListOptions O → ClientCall O T
  call_create call_update : T → O → ClientCall O T
  call_delete : String → O → ClientCall O T
  call_delete_collection : O → ListOptions O → ClientCall O T
  call_patch : String → String → List ℕ → O → List String → ClientCall O T

module _ {O : Type 0} where
  abbrev pub configuration_request :
      ClientCall O BridgeConfiguration → Request O BridgeConfiguration
  configuration_request (call_get n opts) = Configurations.get_request n opts
  configuration_request (call_list opts) = Configurations.list_request opts
  configuration_request (call_watch opts) = Configurations.watch_request opts
  configuration_request (call_create o opts) = Configurations.create_request o opts
  configuration_request (call_update o opts) = Configurations.update_request o opts
  configuration_request (call_delete n opts) = Configurations.delete_request n opts
  configuration_request (call_delete_collection opts list_opts) =
      Configurations.delete_collection_request opts list_opts
  configuration_request (call_patch n pt bytes opts subs) =
      Configurations.patch_request n pt bytes opts subs

  abbrev pub configuration_action : ClientCall O BridgeConfiguration → Action O BridgeConfiguration
  configuration_action (call_get n opts) = FakeConfigurations.get_action n
  configuration_action (call_list opts) = FakeConfigurations.list_action opts
  configuration_action (call_watch opts) = FakeConfigurations.watch_action opts
  configuration_action (call_create o opts) = FakeConfigurations.create_action o
  configuration_action (call_update o opts) = FakeConfigurations.update_action o
  configuration_action (call_delete n opts) = FakeConfigurations.delete_action n opts
  configuration_action (call_delete_collection opts list_opts) =
      FakeConfigurations.delete_collection_action list_opts
  configuration_action (call_patch n pt bytes opts subs) =
      FakeConfigurations.patch_action n pt bytes subs

  abbrev pub information_request : ClientCall O BridgeInformation → Request O BridgeInformation
  information_request (call_get n opts) = Informations.get_request n opts
  information_request (call_list opts) = Informations.list_request opts
  information_request (call_watch opts) = Informations.watch_request opts
  information_request (call_create o opts) = Informations.create_request o opts
  information_request (call_update o opts) = Informations.update_request o opts
  information_request (call_delete n opts) = Informations.delete_request n opts
  information_request (call_delete_collection opts list_opts) =
      Informations.delete_collection_request opts list_opts
  information_request (call_patch n pt bytes opts subs) =
      Informations.patch_request n pt bytes opts subs

  abbrev pub information_action : ClientCall O BridgeInformation → Action O BridgeInformation
  information_action (call_get n opts) = FakeInformations.get_action n
  information_action (call_list opts) = FakeInformations.list_action opts
  information_action (call_watch opts) = FakeInformations.watch_action opts
  information_action (call_create o opts) = FakeInformations.create_action o
  information_action (call_update o opts) = FakeInformations.update_action o
  information_action (call_delete n opts) = FakeInformations.delete_action n opts
  information_action (call_delete_collection opts list_opts) =
      FakeInformations.delete_collection_action list_opts
  information_action (call_patch n pt bytes opts subs) =
      FakeInformations.patch_action n pt bytes subs

module _ {O T : Type 0} where
  -- The options of a list do not ask for a watch.
  abbrev pub AsksNoWatch : ClientCall O T → Type 0
  AsksNoWatch (call_list opts) = opts.watch ≡ false
  AsksNoWatch _ = Unit {0}

  -- What the fake client watches: it has the options as they were given, those of the request
  -- besides ask for a watch.
  abbrev pub watching : Action O T → Action O T
  watching (root_watch r opts) = root_watch r (record opts { watch = true })
  watching a = a

module _ {O : Type 0} where
  configurations_agree :
      (c : ClientCall O BridgeConfiguration)
      → AsksNoWatch c
      → meaning (λ o. o.metadata.name) (configuration_request c)
        ≡ some (watching (configuration_action c))
  unfolding Configurations.get_request Configurations.list_request Configurations.watch_request
      Configurations.create_request Configurations.update_request Configurations.delete_request
      Configurations.delete_collection_request Configurations.patch_request
      FakeConfigurations.get_action FakeConfigurations.list_action FakeConfigurations.watch_action
      FakeConfigurations.create_action FakeConfigurations.update_action
      FakeConfigurations.delete_action FakeConfigurations.delete_collection_action
      FakeConfigurations.patch_action
  configurations_agree (call_get n opts) h = refl
  configurations_agree (call_list opts) h = rw h refl
  configurations_agree (call_watch opts) h = ground arith
  configurations_agree (call_create o opts) h = refl
  configurations_agree (call_update o opts) h = rw (beq_refl o.metadata.name) refl
  configurations_agree (call_delete n opts) h = refl
  configurations_agree (call_delete_collection opts list_opts) h = refl
  configurations_agree (call_patch n pt bytes opts subs) h = refl

  informations_agree :
      (c : ClientCall O BridgeInformation)
      → AsksNoWatch c
      → meaning (λ o. o.metadata.name) (information_request c)
        ≡ some (watching (information_action c))
  unfolding Informations.get_request Informations.list_request Informations.watch_request
      Informations.create_request Informations.update_request Informations.delete_request
      Informations.delete_collection_request Informations.patch_request FakeInformations.get_action
      FakeInformations.list_action FakeInformations.watch_action FakeInformations.create_action
      FakeInformations.update_action FakeInformations.delete_action
      FakeInformations.delete_collection_action FakeInformations.patch_action
  informations_agree (call_get n opts) h = refl
  informations_agree (call_list opts) h = rw h refl
  informations_agree (call_watch opts) h = ground arith
  informations_agree (call_create o opts) h = refl
  informations_agree (call_update o opts) h = rw (beq_refl o.metadata.name) refl
  informations_agree (call_delete n opts) h = refl
  informations_agree (call_delete_collection opts list_opts) h = refl
  informations_agree (call_patch n pt bytes opts subs) h = refl

  -- For both types of objects, the request that a method sends stands for the action that the fake
  -- client performs for the same method, where the options of a list do not ask for a watch; those
  -- of a watch may ask for one or not, the request asks for one. So too for `UpdateStatus` of a
  -- `BridgeInformation`.
  pub meaning-request :
      (c : ClientCall O BridgeConfiguration) (i : ClientCall O BridgeInformation)
      → (o : BridgeInformation) (opts : O) → AsksNoWatch c
      → AsksNoWatch i
      → (meaning (λ x. x.metadata.name) (configuration_request c)
          ≡ some (watching (configuration_action c)))
        × (meaning (λ x. x.metadata.name) (information_request i)
            ≡ some (watching (information_action i)))
        × (meaning (λ x. x.metadata.name) (Informations.update_status_request o opts)
            ≡ some (FakeInformations.update_status_action o))
  unfolding Informations.update_status_request FakeInformations.update_status_action
  meaning-request c i o opts hc hi =
      (configurations_agree c hc, informations_agree i hi, rw (beq_refl o.metadata.name) refl)
