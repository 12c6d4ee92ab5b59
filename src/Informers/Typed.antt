-- ===== src/Informers/Typed.antt =====
-- The typed informers of the two kinds of objects
-- (pkg/client/informers/externalversions/bridgeoperator.k8s.cni.npwg.io/v1alpha1), `ForResource`
-- (pkg/client/informers/externalversions/generic.go), and the use of them in `Server.Run`
-- (pkg/server/server.go). The methods that only hand the factory on, from `Bridgeoperator` to
-- `BridgeConfigurations`, are left out: they keep the factory and its filter.
pub mod Registered
use bridge_operator.Prelude.{
  List, Option, String, [], if◌then◌else◌, int_eq, nat_eq, none, some, string_eq, ℤ, ◌&&◌, ◌==◌,
  ◌∷◌,
}
use bridge_operator.Informers.{
  FactoryState, NewInformerFunc, fresh, informer_for, new_shared_informer_factory_with_options,
  start,
}
use bridge_operator.Tracker.{name_eq}
use bridge_operator.Types.{interface_eq, vlan_interface_eq}

-- The calls of the client that an informer makes, for a kind of objects; `O` holds the options of
-- a call, `R` what it gives.
pub record ListWatch (O R : Type 0) : Type 0 where
  pub list_func : O → R
  pub watch_func : O → R

pub record Client (O R : Type 0) : Type 0 where
  pub list : String → O → R
  pub watch : String → O → R

abbrev pub bridge_configuration : String
bridge_configuration = "BridgeConfiguration"

abbrev pub bridge_information : String
bridge_information = "BridgeInformation"

-- The type of objects that a resource of the group and version holds.
abbrev pub resource_of : String → String
resource_of t = if t == bridge_configuration then "bridgeconfigurations" else "bridgeinformation"

-- `schema.GroupVersionResource`
pub record GroupVersionResource : Type 0 where
  pub group : String
  pub version : String
  pub resource : String

abbrev tweaked : {O : Type 0} → Option (O → O) → O → O
tweaked none options = options
tweaked (some tweak) options = tweak options

-- The informers are made by `cache.NewSharedIndexInformer`, from the calls, the type of objects,
-- the period of the resync and the indexers.
module _ {I O R W : Type 0}
    (new_shared_index_informer : ListWatch O R → String → ℤ → List String → W → I × W) where
  unfoldable pub new_filtered_informer :
      String → Client O R → ℤ → List String → Option (O → O) → W → I × W
  new_filtered_informer t client resync indexers tweak =
      new_shared_index_informer
        (record {
          list_func = λ options. client.list (resource_of t) (tweaked tweak options);
          watch_func = λ options. client.watch (resource_of t) (tweaked tweak options);
        })
        t resync indexers

  -- `cache.NamespaceIndex` is "namespace".
  unfoldable pub default_informer : String → Option (O → O) → NewInformerFunc (Client O R) I W
  default_informer t tweak client resync =
      new_filtered_informer t client resync ("namespace" ∷ []) tweak

  -- `Informer`, which `Lister` calls too.
  unfoldable pub informer :
      String → FactoryState (Client O R) O I W → I × FactoryState (Client O R) O I W
  informer t s = informer_for t (default_informer t s.factory.tweak_list_options) s

  unfoldable pub for_resource :
      GroupVersionResource
      → FactoryState (Client O R) O I W
      → Option I × FactoryState (Client O R) O I W
  for_resource r s =
      let known = r.group == "bridgeoperator.k8s.cni.npwg.io" && r.version == "v1alpha1" in
      if known && r.resource == "bridgeconfigurations"
      then (let (i, s1) = informer bridge_configuration s in (some i, s1))
      else if known && r.resource == "bridgeinformation"
      then (let (i, s1) = informer bridge_information s in (some i, s1))
      else (none, s)

  -- The informers of which `Server.Run` takes the lister and `NewBridgeConfConfig` takes
  -- `HasSynced` and registers the handlers, and the factory once it is started.
  pub record Wiring : Type 0 where
    pub listed : I
    pub synced : I
    pub handled : I
    pub state : FactoryState (Client O R) O I W

  unfoldable pub wire : Client O R → ℤ → W → Wiring
  wire client config_sync_period w =
      let s0 = fresh (new_shared_informer_factory_with_options client config_sync_period []) w in
      let (listed, s1) = informer bridge_configuration s0 in
      let (synced, s2) = informer bridge_configuration s1 in
      let (handled, s3) = informer bridge_configuration s2 in
      record { listed = listed; synced = synced; handled = handled; state = start s3 }
