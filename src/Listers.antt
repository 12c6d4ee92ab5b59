-- ===== src/Listers.antt =====
-- The listers of the two kinds of objects
-- (pkg/client/listers/bridgeoperator.k8s.cni.npwg.io/v1alpha1). The indexer, `cache.ListAll` and the
-- errors of apimachinery are parameters.
pub mod Agreement
use bridge_operator.Prelude.{Bool, Error, List, Option, String, [], false, none, some, true, ◌∷◌}
use bridge_operator.State.{◌>>◌}
use bridge_operator.Types.{BridgeConfiguration, BridgeInformation}

-- A panic is `none`.
infixl 5 ◌>>=◌
abbrev ◌>>=◌ : {A B : Type 0} → Option A → (A → Option B) → Option B
none >>= f = none
some x >>= f = f x

pub record GroupResource : Type 0 where
  pub group : String
  pub resource : String

-- `v1alpha1.Resource`
unfoldable pub group_resource : String → GroupResource
group_resource resource = record { group = "bridgeoperator.k8s.cni.npwg.io"; resource = resource }

-- What an indexer holds: values of type `interface{}`.
pub data Cached : Type 0 where
  cached_configuration : BridgeConfiguration → Cached
  cached_information : BridgeInformation → Cached
  cached_other : Cached

-- `m.(*v1alpha1.BridgeConfiguration)`
unfoldable pub as_configuration : Cached → Option BridgeConfiguration
as_configuration (cached_configuration config) = some config
as_configuration (cached_information info) = none
as_configuration cached_other = none

-- `m.(*v1alpha1.BridgeInformation)`
unfoldable pub as_information : Cached → Option BridgeInformation
as_information (cached_configuration config) = none
as_information (cached_information info) = some info
as_information cached_other = none

-- `GetByKey`, with the object, whether there is one, and an error; and `cache.ListAll`, with the
-- objects that it hands to its callback one after the other, and its error.
pub record Cache (I S : Type 0) : Type 0 where
  pub get_by_key : I → String → Cached × Bool × Option Error
  pub list_all : I → S → List Cached × Option Error
  pub new_not_found : GroupResource → String → Error

-- `ret = append(ret, m.(*T))`, for all objects of `ListAll`.
unfoldable pub append_each : {A : Type 0} → (Cached → Option A) → List Cached → Option (List A)
append_each assert [] = some []
append_each assert (m ∷ ms) = do obj ← assert m; ret ← append_each assert ms; some (obj ∷ ret)

-- The object and the error of `Get`, from those of `GetByKey` and the error for no object.
unfoldable pub checked :
    {A : Type 0}
    → (Cached → Option A)
    → Error
    → Cached × Bool × Option Error
    → Option (Option A × Option Error)
checked assert absent (obj, exists, some e) = some (none, some e)
checked assert absent (obj, false, none) = some (none, some absent)
checked assert absent (obj, true, none) = do x ← assert obj; some (some x, none)

module _ {I S : Type 0} (c : Cache I S) where
  -- `bridgeConfigurationLister.List`
  unfoldable pub list_configurations : I → S → Option (List BridgeConfiguration × Option Error)
  list_configurations indexer selector =
      let (ms, e) = c.list_all indexer selector in
      do ret ← append_each as_configuration ms; some (ret, e)

  -- `bridgeConfigurationLister.Get`
  unfoldable pub get_configuration : I → String → Option (Option BridgeConfiguration × Option Error)
  get_configuration indexer key =
      checked as_configuration (c.new_not_found (group_resource "bridgeconfiguration") key)
        (c.get_by_key indexer key)

  -- `bridgeInformationLister.List`
  unfoldable pub list_informations : I → S → Option (List BridgeInformation × Option Error)
  list_informations indexer selector =
      let (ms, e) = c.list_all indexer selector in
      do ret ← append_each as_information ms; some (ret, e)

  -- `bridgeInformationLister.Get`
  unfoldable pub get_information : I → String → Option (Option BridgeInformation × Option Error)
  get_information indexer key =
      checked as_information (c.new_not_found (group_resource "bridgeinformation") key)
        (c.get_by_key indexer key)
