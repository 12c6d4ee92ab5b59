-- ===== src/Listers/Agreement.antt =====
-- `Get` finds what `List` lists (pkg/client/listers/bridgeoperator.k8s.cni.npwg.io/v1alpha1).
use bridge_operator.Prelude.{
  Bool, Bool-cases, Error, List, Option, String, [], false, if◌then◌else◌, inl, inr, int_eq, map,
  nat_eq, none, refl, some, string_eq, true, ◌==◌, ◌∷◌, ◌≡◌,
}
use bridge_operator.Listers.{
  Cache, Cached, append_each, as_configuration, as_information, cached_configuration,
  cached_information, cached_other, checked, get_configuration, get_information, group_resource,
  list_configurations, list_informations,
}
use bridge_operator.Tracker.{name_eq}
use bridge_operator.Types.{BridgeConfiguration, BridgeInformation, interface_eq, vlan_interface_eq}

-- The objects of a kind: how they stand in the indexer, and their names.
module _ {A : Type 0} (stored : A → Cached) (name_of : A → String) where
  -- The object of a name, or the error that there is none.
  abbrev named : Error → String → List A → Option A × Option Error
  named absent key [] = (none, some absent)
  named absent key (x ∷ xs) = if name_of x == key then (some x, none) else named absent key xs

  -- What is documented of `GetByKey`, for objects without a namespace.
  abbrev found : String → List A → Cached × Bool × Option Error
  found key [] = (cached_other, false, none)
  found key (x ∷ xs) = if name_of x == key then (stored x, true, none) else found key xs

  -- The indexer holds these objects; `ListAll` with the selector of everything visits them all.
  record Holds {I S : Type 0} (c : Cache I S) (indexer : I) (everything : S) (xs : List A)
      : Type 0 where
    by_key : (key : String) → c.get_by_key indexer key ≡ found key xs
    all : c.list_all indexer everything ≡ (map stored xs, none)

  module _ (assert : Cached → Option A) (asserted : (x : A) → assert (stored x) ≡ some x) where
    append_each-map : (xs : List A) → append_each assert (map stored xs) ≡ some xs
    unfolding append_each
    append_each-map [] = refl
    append_each-map (x ∷ xs) = rw (asserted x, append_each-map xs) refl

    checked-found :
        (absent : Error) (key : String) (xs : List A)
        → checked assert absent (found key xs) ≡ some (named absent key xs)
    unfolding checked
    checked-found absent key [] = refl
    checked-found absent key (x ∷ xs) = elim (Bool-cases (name_of x == key)) [
      | inl same ↦ rw (same, asserted x) refl
      | inr other ↦ rw other (checked-found absent key xs)
    ]

module _ {I S : Type 0} (c : Cache I S) (indexer : I) (everything : S) where
  -- On an indexer that holds configurations, `List` with the selector of everything gives them all
  -- in order, and `Get` gives the first of them that has the name, or the error of `NewNotFound` if
  -- none has; neither panics.
  get_configuration-list_configurations :
      (configs : List BridgeConfiguration) (key : String)
      → Holds cached_configuration (λ x. x.metadata.name) c indexer everything configs
      → (list_configurations c indexer everything ≡ some (configs, none))
        × (get_configuration c indexer key
            ≡ some (
                named cached_configuration
                  (λ x. x.metadata.name)
                  (c.new_not_found (group_resource "bridgeconfiguration") key)
                  key
                  configs))
  unfolding list_configurations get_configuration as_configuration
  get_configuration-list_configurations configs key held = (
    rw
        (
          held.all,
          append_each-map cached_configuration (λ x. x.metadata.name) as_configuration (λ x. refl)
              configs,
        )
        refl,
    rw (held.by_key key) (
        checked-found cached_configuration (λ x. x.metadata.name) as_configuration (λ x. refl)
          (c.new_not_found (group_resource "bridgeconfiguration") key) key configs),
  )

  -- The same, for the objects that report bridges.
  get_information-list_informations :
      (infos : List BridgeInformation) (key : String)
      → Holds cached_information (λ x. x.metadata.name) c indexer everything infos
      → (list_informations c indexer everything ≡ some (infos, none))
        × (get_information c indexer key
            ≡ some (
                named cached_information
                  (λ x. x.metadata.name)
                  (c.new_not_found (group_resource "bridgeinformation") key)
                  key
                  infos))
  unfolding list_informations get_information as_information
  get_information-list_informations infos key held = (
    rw
        (
          held.all,
          append_each-map cached_information (λ x. x.metadata.name) as_information (λ x. refl)
              infos,
        )
        refl,
    rw (held.by_key key) (
        checked-found cached_information (λ x. x.metadata.name) as_information (λ x. refl)
          (c.new_not_found (group_resource "bridgeinformation") key) key infos),
  )
