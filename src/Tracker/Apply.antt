-- ===== src/Tracker/Apply.antt =====
-- What a map holds once the changes of a tracker were applied.
use bridge_operator.Prelude.{
  All, Bool, Bool-cases, Option, [], ap, arith, false, if◌then◌else◌, inl, inr, int_eq, nat_eq,
  none, refl, some, string_eq, sym, true, ◌&&◌, ◌==◌, ◌∙◌, ◌∷◌, ◌≡◌, ◌≢◌,
}
use bridge_operator.GoMap.{GoMap, has, lookup, put}
use bridge_operator.GoMap.Laws.{DistinctKeys, lookup-put, lookup-remove}
use bridge_operator.Tracker.{
  BridgeConfChange, BridgeConfInfo, BridgeConfMap, NamespacedName, apply_changes,
  bridge_conf_to_bridge_conf_map, entries, merge, name_beq_iff, name_eq, name_of, unmerge,
}
use bridge_operator.Types.{BridgeConfiguration, interface_eq, vlan_interface_eq}

-- The one-entry map of an optional configuration.
abbrev pub info_of : BridgeConfiguration → BridgeConfInfo
info_of conf = record { bridge_config = conf }

-- The optional configuration is one of this name.
abbrev pub HasName : NamespacedName → Option BridgeConfiguration → Type 0
HasName n none = Unit {0}
HasName n (some conf) = name_of conf ≡ n

abbrev has_config : Option BridgeConfiguration → Bool
has_config none = false
has_config (some conf) = true

abbrev or_info : Option BridgeConfiguration → Option BridgeConfInfo → Option BridgeConfInfo
or_info none o = o
or_info (some conf) o = some (info_of conf)

module _ (n j : NamespacedName) (bcm : BridgeConfMap) where
  lookup-unmerge_one :
      (o : Option BridgeConfiguration)
      → HasName n o
      → lookup j (unmerge bcm (entries (bridge_conf_to_bridge_conf_map o)))
        ≡ (if has_config o && n == j then none else lookup j bcm)
  unfolding unmerge bridge_conf_to_bridge_conf_map put
  lookup-unmerge_one none h = refl
  lookup-unmerge_one (some conf) h = rw h (lookup-remove n j bcm)

  lookup-merge_one :
      (o : Option BridgeConfiguration)
      → HasName n o
      → lookup j (merge bcm (entries (bridge_conf_to_bridge_conf_map o)))
        ≡ (if n == j then or_info o (lookup j bcm) else lookup j bcm)
  unfolding merge bridge_conf_to_bridge_conf_map put
  lookup-merge_one none h = ground arith
  lookup-merge_one (some conf) h = rw h (lookup-put n j (info_of conf) bcm)

abbrev pub infos : Option BridgeConfiguration → Option BridgeConfInfo
infos none = none
infos (some conf) = some (info_of conf)

-- A change of the configuration of one name.
pub record IsChange (n : NamespacedName) (change : BridgeConfChange) : Type 0 where
  pub old : Option BridgeConfiguration
  pub cur : Option BridgeConfiguration
  pub old_name : HasName n old
  pub cur_name : HasName n cur
  pub was : change.previous ≡ bridge_conf_to_bridge_conf_map old
  pub is_now : change.current ≡ bridge_conf_to_bridge_conf_map cur

abbrev pub AreChanges : GoMap NamespacedName BridgeConfChange → Type 0
AreChanges items = All (λ item. IsChange item.0 item.1) items

abbrev change_one : BridgeConfMap → BridgeConfChange → BridgeConfMap
change_one bcm change = merge (unmerge bcm (entries change.previous)) (entries change.current)

replaced :
    (o c : Option BridgeConfiguration)
    → or_info c (if has_config o then none else infos o) ≡ infos c
replaced none none = refl
replaced none (some c) = refl
replaced (some o) none = refl
replaced (some o) (some c) = refl

if_and_false : {A : Type 0} (c : Bool) (x y : A) → (if c && false then x else y) ≡ y
if_and_false true x y = refl
if_and_false false x y = refl

if_and_true :
    {A : Type 0} (c : Bool) (x y : A) → (if c && true then x else y) ≡ (if c then x else y)
if_and_true true x y = refl
if_and_true false x y = refl

module _ (n j : NamespacedName) (bcm : BridgeConfMap) (change : BridgeConfChange)
    (is : IsChange n change) where
  -- A change leaves the other names alone.
  lookup-change_one_ne : (n == j) ≡ false → lookup j (change_one bcm change) ≡ lookup j bcm
  lookup-change_one_ne e =
      rw (is.was, is.is_now)
        (lookup-merge_one n j _ is.cur is.cur_name
          ∙ rw (e, lookup-unmerge_one n j bcm is.old is.old_name, e)
              (if_and_false (has_config is.old) none (lookup j bcm)))

  -- Where the map held the old configuration, it then holds the current one.
  lookup-change_one_eq :
      (n == j) ≡ true
      → lookup j bcm ≡ infos is.old
      → lookup j (change_one bcm change) ≡ infos is.cur
  lookup-change_one_eq e held =
      rw (is.was, is.is_now)
        (lookup-merge_one n j _ is.cur is.cur_name
          ∙ rw (e, lookup-unmerge_one n j bcm is.old is.old_name, e, held)
              (ap (or_info is.cur) (if_and_true (has_config is.old) none (infos is.old))
                ∙ replaced is.old is.cur))

some_not_none : {A : Type 0} {a : A} → some a ≢ none
some_not_none e = cc

first_found : {A : Type 0} {a b : A} → some a ≡ some b → a ≡ b
first_found e = cc

none_of_has :
    {V : Type 0} (m : GoMap NamespacedName V) (j : NamespacedName)
    → has j m ≡ false
    → lookup j m ≡ none
unfolding has
none_of_has m j h = ground (arith, h)

infos_of_map :
    (a b : Option BridgeConfiguration)
    → bridge_conf_to_bridge_conf_map a ≡ bridge_conf_to_bridge_conf_map b
    → infos a ≡ infos b
unfolding bridge_conf_to_bridge_conf_map put
infos_of_map none none e = refl
infos_of_map none (some b) e = cc
infos_of_map (some a) none e = cc
infos_of_map (some a) (some b) e = cc

pub lookup-apply_absent :
    (items : GoMap NamespacedName BridgeConfChange) (bcm : BridgeConfMap) (j : NamespacedName)
    → AreChanges items
    → lookup j items ≡ none
    → lookup j (apply_changes bcm items) ≡ lookup j bcm
unfolding apply_changes lookup
lookup-apply_absent [] bcm j are absent = refl
lookup-apply_absent ((n, change) ∷ items) bcm j are absent = elim (Bool-cases (n == j)) [
  | inl e ↦ absurd (some_not_none (rw e at absent))
  | inr e ↦
      lookup-apply_absent items (change_one bcm change) j are.1 (rw e at absent)
      ∙ lookup-change_one_ne n j bcm change are.0 e
]

-- Applying the changes brings each changed name to its current configuration.
pub lookup-apply_present :
    (items : GoMap NamespacedName BridgeConfChange) (bcm : BridgeConfMap) (j : NamespacedName)
    → DistinctKeys items
    → AreChanges items
    → (change : BridgeConfChange) → lookup j items ≡ some change
    → (is : IsChange j change) → lookup j bcm ≡ infos is.old
    → lookup j (apply_changes bcm items) ≡ infos is.cur
unfolding apply_changes lookup
lookup-apply_present [] bcm j d are change found is held = cc
lookup-apply_present ((n, first) ∷ items) bcm j d are change found is held =
    elim (Bool-cases (n == j)) [
      | inl e ↦
          let same = name_beq_iff n j in
          let first_is : first ≡ change = first_found (rw e at found) in
          let gone : lookup j items ≡ none =
            none_of_has items j (ap (λ x. has x items) (sym (same.0 e)) ∙ d.0) in
          lookup-apply_absent items (change_one bcm first) j are.1 gone
          ∙ lookup-change_one_eq n j bcm first are.0 e (
              held
              ∙ infos_of_map is.old are.0.old
                  (sym is.was ∙ ap (λ x. x.previous) (sym first_is) ∙ are.0.was))
          ∙ infos_of_map are.0.cur is.cur
              (sym are.0.is_now ∙ ap (λ x. x.current) first_is ∙ is.is_now)
      | inr e ↦
          lookup-apply_present items (change_one bcm first) j d.1 are.1 change (rw e at found) is
            (lookup-change_one_ne n j bcm first are.0 e ∙ held)
    ]
