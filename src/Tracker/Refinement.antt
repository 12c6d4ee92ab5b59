-- ===== src/Tracker/Refinement.antt =====
-- The tracker against its purpose, to bring a map of configurations up to date.
use mathlib.Core.Path.{subst}
use bridge_operator.Prelude.{
  Bool, Bool-cases, Option, Option-cases, ap, arith, false, if◌then◌else◌, inl, inr, int_eq, leb,
  length, nat_eq, none, refl, some, string_eq, sym, true, ℕ, ◌&&◌, ◌==◌, ◌∙◌, ◌≡◌,
}
use bridge_operator.GoMap.{GoMap, lookup, put, remove}
use bridge_operator.GoMap.Laws.{
  lookup-All, DistinctKeys, lookup-put_or_drop, put_or_drop-DistinctKeys,
}
use bridge_operator.Tracker.{
  BridgeConfChange, BridgeConfChangeTracker, BridgeConfMap, NamespacedName, apply,
  bridge_conf_to_bridge_conf_map, change_for, maps_equal, name_beq, name_beq_iff, name_eq, name_of,
  new_bridge_conf_change_tracker, subject, track, update,
}
use bridge_operator.Tracker.Apply.{
  AreChanges, HasName, IsChange, infos, lookup-apply_absent, lookup-apply_present,
}
use bridge_operator.Types.{BridgeConfiguration, interface_eq, vlan_interface_eq}

-- The configurations of the cluster, by name.
abbrev pub Configs : Type 0
Configs = NamespacedName → Option BridgeConfiguration

abbrev pub set_config : NamespacedName → Option BridgeConfiguration → Configs → Configs
set_config n o configs j = if n == j then o else configs j

-- A map and the pending changes together stand for the configurations.
pub record Tracks (bcm : BridgeConfMap) (t : BridgeConfChangeTracker) (configs : Configs)
    : Type 0 where
  pub distinct : DistinctKeys t.items
  pub named : (n : NamespacedName) → HasName n (configs n)
  pub settled : (n : NamespacedName) → lookup n t.items ≡ none → lookup n bcm ≡ infos (configs n)
  pub pending :
      (n : NamespacedName) (change : BridgeConfChange)
      → lookup n t.items ≡ some change
      → (is : IsChange n change) × (lookup n bcm ≡ infos is.old) × (is.cur ≡ configs n)

-- If a map and the pending changes of a tracker together stand for configurations, then once the
-- changes are applied, the map has exactly these configurations, and no change is pending.
pub apply-Tracks :
    (bcm : BridgeConfMap) (t : BridgeConfChangeTracker) (configs : Configs)
    → Tracks bcm t configs
    → ((n : NamespacedName) → lookup n (apply bcm t).0 ≡ infos (configs n))
      × ((apply bcm t).1 ≡ new_bridge_conf_change_tracker)
unfolding apply new_bridge_conf_change_tracker
apply-Tracks bcm t configs h = (
  λ n. elim (Option-cases (lookup n t.items)) [
    | inl absent ↦ lookup-apply_absent t.items bcm n changes absent ∙ h.settled n absent
    | inr (change, found) ↦
        let (is, held, latest) = h.pending n change found in
        lookup-apply_present t.items bcm n h.distinct changes change found is held ∙ ap infos latest
  ],
  refl,
)
  where
    changes : AreChanges t.items
    changes = lookup-All _ t.items h.distinct (λ n change found. (h.pending n change found).0)

zero_leb : (n : ℕ) → leb 0 n ≡ true
zero_leb n = ground arith

first_some : {A : Type 0} {a b : A} → some a ≡ some b → a ≡ b
first_some e = cc

and_true : {b : Bool} → (b && true) ≡ true → b ≡ true
and_true {b} e = ground (arith, e)

none_if : {A : Type 0} (a : A) (q : Bool) → (if q then none else some a) ≡ none → q ≡ true
none_if a true e = refl
none_if a false e = cc

some_if : {A : Type 0} {a b : A} (q : Bool) → (if q then none else some a) ≡ some b → a ≡ b
some_if true e = cc
some_if false e = cc

-- What is known of a name before an update.
record Before (n : NamespacedName) (bcm : BridgeConfMap) (found : BridgeConfChange) : Type 0 where
  old : Option BridgeConfiguration
  old_name : HasName n old
  was : found.previous ≡ bridge_conf_to_bridge_conf_map old
  held : lookup n bcm ≡ infos old

module _ (deep_equal : BridgeConfiguration → BridgeConfiguration → Bool)
    (deep_equal_sound : (a b : BridgeConfiguration) → deep_equal a b ≡ true → a ≡ b) where
  before :
      (n : NamespacedName) (bcm : BridgeConfMap) (t : BridgeConfChangeTracker) (configs : Configs)
      → Tracks bcm t configs
      → Before n bcm (change_for deep_equal (configs n) (lookup n t.items))
  unfolding change_for
  before n bcm t configs h = elim (Option-cases (lookup n t.items)) [
    | inl absent ↦
        rw absent
          (record { old = configs n; old_name = h.named n; was = refl; held = h.settled n absent })
    | inr (change, found) ↦
        let (is, held, latest) = h.pending n change found in
        rw found (record { old = is.old; old_name = is.old_name; was = is.was; held = held })
  ]

  maps_equal_sound :
      (n : NamespacedName) (a b : Option BridgeConfiguration)
      → HasName n a
      → HasName n b
      → maps_equal deep_equal (bridge_conf_to_bridge_conf_map a) (bridge_conf_to_bridge_conf_map b)
        ≡ true
      → a ≡ b
  unfolding maps_equal bridge_conf_to_bridge_conf_map put lookup
  maps_equal_sound n none none ha hb e = refl
  maps_equal_sound n none (some b) ha hb e = cc
  maps_equal_sound n (some a) none ha hb e = cc
  maps_equal_sound n (some a) (some b) ha hb e =
      let same : name_beq (name_of b) (name_of a) ≡ true =
        (name_beq_iff (name_of b) (name_of a)).1 (hb ∙ sym ha) in
      ap some (deep_equal_sound a b (and_true (rw same at e)))

  module _ (bcm : BridgeConfMap) (t : BridgeConfChangeTracker) (configs : Configs)
      (n : NamespacedName) (current : Option BridgeConfiguration) (h : Tracks bcm t configs)
      (current_name : HasName n current) where
    abbrev new_change : BridgeConfChange
    new_change = record (change_for deep_equal (configs n) (lookup n t.items)) {
      current = bridge_conf_to_bridge_conf_map current;
    }

    abbrev unchanged : Bool
    unchanged = maps_equal deep_equal new_change.previous new_change.current

    abbrev new_items : GoMap NamespacedName BridgeConfChange
    new_items = if unchanged then remove n (put n new_change t.items) else put n new_change t.items

    known : Before n bcm (change_for deep_equal (configs n) (lookup n t.items))
    known = before n bcm t configs h

    -- A change that is dropped changes nothing.
    dropped : unchanged ≡ true → lookup n bcm ≡ infos current
    dropped e =
        known.held
        ∙ ap infos
            (maps_equal_sound n known.old current known.old_name current_name (rw known.was at e))

    named_after : (j : NamespacedName) → HasName j (set_config n current configs j)
    named_after j = elim (Bool-cases (n == j)) [
      | inl e ↦ rw e (subst (λ x. HasName x current) ((name_beq_iff n j).0 e) current_name)
      | inr e ↦ rw e (h.named j)
    ]

    settled_after :
        (j : NamespacedName)
        → lookup j new_items ≡ none
        → lookup j bcm ≡ infos (set_config n current configs j)
    settled_after j absent = elim (Bool-cases (n == j)) [
      | inl e ↦ rw e (
          subst (λ x. lookup x bcm ≡ infos current) ((name_beq_iff n j).0 e)
            (dropped (
              none_if new_change unchanged
                (rw (lookup-put_or_drop unchanged n j new_change t.items, e) at absent))))
      | inr e ↦
          rw e (h.settled j (rw (lookup-put_or_drop unchanged n j new_change t.items, e) at absent))
    ]

    pending_after :
        (j : NamespacedName) (change : BridgeConfChange)
        → lookup j new_items ≡ some change
        → (is : IsChange j change) × (lookup j bcm ≡ infos is.old)
          × (is.cur ≡ set_config n current configs j)
    pending_after j change found = elim (Bool-cases (n == j)) [
      | inl e ↦
          let same = (name_beq_iff n j).0 e in
          let is_new : new_change ≡ change =
            some_if unchanged
              (rw (lookup-put_or_drop unchanged n j new_change t.items, e) at found) in
          (
            record {
              old = known.old;
              cur = current;
              old_name = subst (λ x. HasName x known.old) same known.old_name;
              cur_name = subst (λ x. HasName x current) same current_name;
              was = ap (λ x. x.previous) (sym is_new) ∙ known.was;
              is_now = ap (λ x. x.current) (sym is_new);
            },
            subst (λ x. lookup x bcm ≡ infos known.old) same known.held,
            rw e refl,
          )
      | inr e ↦ rw e (
          h.pending j change (rw (lookup-put_or_drop unchanged n j new_change t.items, e) at found))
    ]

    pub Tracks-track :
        Tracks bcm (track deep_equal t n (configs n) current) (set_config n current configs)
    unfolding track
    Tracks-track = record {
      distinct = put_or_drop-DistinctKeys unchanged n new_change t.items h.distinct;
      named = named_after;
      settled = settled_after;
      pending = pending_after;
    }

  subject_name :
      (n : NamespacedName) (previous current : Option BridgeConfiguration)
      (conf : BridgeConfiguration)
      → HasName n previous
      → HasName n current
      → subject previous current ≡ some conf
      → name_of conf ≡ n
  unfolding subject
  subject_name n none none conf hp hc e = cc
  subject_name n (some p) none conf hp hc e = ap name_of (sym (first_some e)) ∙ hp
  subject_name n previous (some c) conf hp hc e = ap name_of (sym (first_some e)) ∙ hc

  -- For a test of configurations that takes only equal ones for equal: told that the configuration
  -- of one name went from the one that the tracker stands for to another (one of the two may be
  -- missing), the tracker answers true, and then stands for the new one.
  pub update-Tracks :
      (bcm : BridgeConfMap) (t : BridgeConfChangeTracker) (configs : Configs) (n : NamespacedName)
      (current : Option BridgeConfiguration) (conf : BridgeConfiguration)
      → Tracks bcm t configs
      → HasName n current
      → subject (configs n) current ≡ some conf
      → (t' : BridgeConfChangeTracker) × (update deep_equal (some t) (configs n) current
          ≡ (true, some t'))
        × Tracks bcm t' (set_config n current configs)
  unfolding update
  update-Tracks bcm t configs n current conf h named about = (
    track deep_equal t n (configs n) current,
    rw (about, update, subject_name n (configs n) current conf (h.named n) named about)
        (ap (λ b. (b, some (track deep_equal t n (configs n) current)))
          (zero_leb (length (track deep_equal t n (configs n) current).items))),
    Tracks-track bcm t configs n current h named,
  )
