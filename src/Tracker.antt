-- ===== src/Tracker.antt =====
-- `BridgeConfMap` and `BridgeConfChangeTracker` (pkg/controllers/bridgeconfig.go). A nil map is
-- none; so is a nil tracker or configuration. The locks are left out: a method runs as a whole.
pub mod Apply
pub mod Refinement
use text.Mathlib.TextEquality.{eq_iff}
use bridge_operator.Prelude.{
  Bool, Eq, Option, String, [], arith, false, if◌then◌else◌, int_eq, leb, length, nat_eq, none,
  some, string_eq, true, ◌&&◌, ◌==◌, ◌↔◌, ◌∷◌, ◌≡◌,
}
use bridge_operator.GoMap.{GoMap, lookup, put, remove}
use bridge_operator.Types.{BridgeConfiguration, interface_eq, vlan_interface_eq}

pub record NamespacedName : Type 0 where
  pub namespace : String
  pub name : String

abbrev pub name_beq : NamespacedName → NamespacedName → Bool
name_beq a b = a.namespace == b.namespace && a.name == b.name

pub name_beq_iff : (a b : NamespacedName) → (name_beq a b ≡ true) ↔ (a ≡ b)
name_beq_iff a b = ground (arith, eq_iff a.namespace b.namespace, eq_iff a.name b.name)

instance abbrev pub name_eq : Eq NamespacedName
name_eq = record { beq = name_beq; beq_iff = name_beq_iff }

pub record BridgeConfInfo : Type 0 where
  pub bridge_config : BridgeConfiguration

abbrev pub BridgeConfMap : Type 0
BridgeConfMap = GoMap NamespacedName BridgeConfInfo

pub record BridgeConfChange : Type 0 where
  pub previous : Option BridgeConfMap
  pub current : Option BridgeConfMap

pub record BridgeConfChangeTracker : Type 0 where
  pub items : GoMap NamespacedName BridgeConfChange

unfoldable pub new_bridge_conf_change_tracker : BridgeConfChangeTracker
new_bridge_conf_change_tracker = record { items = [] }

abbrev pub name_of : BridgeConfiguration → NamespacedName
name_of conf = record { namespace = conf.metadata.namespace; name = conf.metadata.name }

unfoldable pub bridge_conf_to_bridge_conf_map : Option BridgeConfiguration → Option BridgeConfMap
bridge_conf_to_bridge_conf_map none = none
bridge_conf_to_bridge_conf_map (some conf) =
    some (put (name_of conf) (record { bridge_config = conf }) [])

-- `merge` and `unmerge` over the entries of `other`.
unfoldable pub merge : BridgeConfMap → BridgeConfMap → BridgeConfMap
merge bcm [] = bcm
merge bcm ((name, info) ∷ other) = merge (put name info bcm) other

unfoldable pub unmerge : BridgeConfMap → BridgeConfMap → BridgeConfMap
unmerge bcm [] = bcm
unmerge bcm ((name, info) ∷ other) = unmerge (remove name bcm) other

-- A nil map has no entries.
abbrev pub entries : Option BridgeConfMap → BridgeConfMap
entries none = []
entries (some m) = m

unfoldable pub apply_changes : BridgeConfMap → GoMap NamespacedName BridgeConfChange → BridgeConfMap
apply_changes bcm [] = bcm
apply_changes bcm ((name, change) ∷ items) =
    apply_changes (merge (unmerge bcm (entries change.previous)) (entries change.current)) items

-- `BridgeConfMap.Update` and `apply`, of a map and a tracker that are not nil.
unfoldable pub apply :
    BridgeConfMap → BridgeConfChangeTracker → BridgeConfMap × BridgeConfChangeTracker
unfolding apply_changes
apply bcm changes = (apply_changes bcm changes.items, record { items = [] })

-- The configuration whose name an update is about.
unfoldable pub subject :
    Option BridgeConfiguration → Option BridgeConfiguration → Option BridgeConfiguration
subject previous none = previous
subject previous (some conf) = some conf

-- `reflect.DeepEqual` on the configurations themselves compares fields beyond the model's.
module _ (deep_equal : BridgeConfiguration → BridgeConfiguration → Bool) where
  abbrev same_info : BridgeConfInfo → Option BridgeConfInfo → Bool
  same_info a none = false
  same_info a (some b) = deep_equal a.bridge_config b.bridge_config

  entries_in : BridgeConfMap → BridgeConfMap → Bool
  entries_in [] other = true
  entries_in ((name, info) ∷ m) other = same_info info (lookup name other) && entries_in m other

  unfoldable pub maps_equal : Option BridgeConfMap → Option BridgeConfMap → Bool
  unfolding entries_in
  maps_equal none none = true
  maps_equal none (some b) = false
  maps_equal (some a) none = false
  maps_equal (some a) (some b) = length a == length b && entries_in a b

  unfoldable pub change_for :
      Option BridgeConfiguration → Option BridgeConfChange → BridgeConfChange
  change_for previous (some change) = change
  change_for previous none = record {
    previous = bridge_conf_to_bridge_conf_map previous;
    current = none;
  }

  unfoldable pub track :
      BridgeConfChangeTracker
      → NamespacedName
      → Option BridgeConfiguration
      → Option BridgeConfiguration
      → BridgeConfChangeTracker
  unfolding change_for
  track t name previous current =
      let found = change_for previous (lookup name t.items) in
      let change = record found { current = bridge_conf_to_bridge_conf_map current } in
      let items = put name change t.items in
      record {
        items = if maps_equal change.previous change.current then remove name items else items;
      }

  -- `BridgeConfChangeTracker.Update`
  unfoldable pub update :
      Option BridgeConfChangeTracker
      → Option BridgeConfiguration
      → Option BridgeConfiguration
      → Bool × Option BridgeConfChangeTracker
  unfolding track
  update none previous current = (false, none)
  update (some t) previous current = elim (subject previous current) [
    | none ↦ (false, some t)
    | some conf ↦
        let t' = track t (name_of conf) previous current in (leb 0 (length t'.items), some t')
  ]
