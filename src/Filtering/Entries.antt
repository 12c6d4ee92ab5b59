-- ===== src/Filtering/Entries.antt =====
-- The VLAN ids that a port carries after `bridgeVlanIDReconcile` (pkg/server/bridgeconfig.go), for a
-- kernel that carries out the calls.
use bridge_operator.Prelude.{
  All, Bool, Bool-cases, List, Result, [], ap, arith, contains, err, false, inl, inr, int_eq,
  nat_eq, not, ok, refl, string_eq, true, ℕ, ◌&&◌, ◌++◌, ◌==◌, ◌||◌, ◌∙◌, ◌∷◌, ◌≡◌,
}
use bridge_operator.Filtering.{
  VidSet, add_missing, add_vid, bridge_vlan_id_reconcile, drop_stale, int32,
}
use bridge_operator.Filtering.Plan.{DistinctVids, missing}
use bridge_operator.GoMap.{has, keys, lookup, remove}
use bridge_operator.GoMap.Laws.{has-remove, remove_absent}
use bridge_operator.Netlink.{BridgeVlanInfo, Kernel, Link, bridge_vlan_add, bridge_vlan_del}
use bridge_operator.State.{State, for_each, net, netlink, pure, returned, ◌>>=◌}
use bridge_operator.Types.{interface_eq, vlan_interface_eq}

-- An entry of the list has the id.
abbrev pub lists : ℕ → List BridgeVlanInfo → Bool
lists v [] = false
lists v (i ∷ is) = i.vid == v || lists v is

-- The entries of the link whose index has the `int32` value `i`.
abbrev pub entries_of : ℕ → Result (ℕ → List BridgeVlanInfo) → List BridgeVlanInfo
entries_of i (err e) = []
entries_of i (ok info) = info i

module _ {W : Type 0} (k : Kernel W) where
  unfoldable pub carries : ℕ → ℕ → W → Bool
  carries i v w = lists v (entries_of i (k.bridge_vlan_list w))

  -- The kernel carries out the calls that add or delete a VLAN id of a port, and does nothing else.
  pub record GrantsVids : Type 0 where
    pub carries-add :
        (link : Link) (vid : ℕ) (pvid untagged : Bool) (w : W) (i v : ℕ)
        → carries i v (k.perform (bridge_vlan_add link vid pvid untagged false true) w).1
          ≡ ((int32 link.index == i && vid == v) || carries i v w)
    pub carries-del :
        (link : Link) (vid : ℕ) (pvid untagged : Bool) (w : W) (i v : ℕ)
        → carries i v (k.perform (bridge_vlan_del link vid pvid untagged false true) w).1
          ≡ (not (int32 link.index == i && vid == v) && carries i v w)

lists_absent :
    (v : ℕ) (is : List BridgeVlanInfo) → All (λ j. (v == j.vid) ≡ false) is → lists v is ≡ false
lists_absent v [] h = refl
lists_absent v (i ∷ is) h = ground (arith, lists_absent v is h.1)

pub has-missing :
    (is : List BridgeVlanInfo) (vids : VidSet) (v : ℕ)
    → has v (missing is vids) ≡ (has v vids && not (lists v is))
unfolding missing
has-missing [] vids v = ground arith
has-missing (i ∷ is) vids v =
    ground (arith, has-missing is (remove i.vid vids) v, has-remove i.vid v vids)

contains-keys : (m : VidSet) (v : ℕ) → contains v (keys m) ≡ has v m
unfolding contains keys has lookup
contains-keys [] v = refl
contains-keys ((j, u) ∷ m) v = ground (arith, contains-keys m v)

abbrev pub is_empty : VidSet → Bool
is_empty [] = true
is_empty (x ∷ vids) = false

-- If nothing is missing, then the port has every wanted id.
empty_missing :
    (is : List BridgeVlanInfo) (vids : VidSet) (v : ℕ)
    → is_empty (missing is vids) ≡ true
    → has v vids ≡ true
    → lists v is ≡ true
unfolding has lookup
empty_missing is vids v e h = split (missing is vids) e (has-missing is vids v)
  where
    split :
        (m : VidSet)
        → is_empty m ≡ true
        → has v m ≡ (has v vids && not (lists v is))
        → lists v is ≡ true
    split [] e q = ground (arith, h, q)
    split (x ∷ m) e q = cc

module _ {W : Type 0} (k : Kernel W) (grants : GrantsVids k) (link : Link) where
  open grants use {carries-add, carries-del}

  -- The port carries the id.
  abbrev has_id : ℕ → State W → Bool
  has_id v s = carries k (int32 link.index) v s.world

  drop_stale-has_id :
      (is : List BridgeVlanInfo) (vids : VidSet) (s : State W)
      → DistinctVids is
      → (t : State W) × (drop_stale k link is vids s ≡ returned (missing is vids) t)
        × ((v : ℕ) → has_id v t ≡ (has_id v s && not (lists v is && not (has v vids))))
  unfolding drop_stale missing pure netlink ◌>>=◌
  drop_stale-has_id [] vids s h = (s, refl, λ v. ground arith)
  drop_stale-has_id (i ∷ is) vids s h = elim (Bool-cases (has i.vid vids)) [
    | inl wanted ↦
        let (t, e, c) = drop_stale-has_id is (remove i.vid vids) s h.1 in
        (
          t,
          rw wanted e,
          λ v. ground (arith, c v, has-remove i.vid v vids, lists_absent i.vid is h.0, wanted),
        )
    | inr unwanted ↦
        let s1 : State W = record s {
          calls =
              s.calls ++ net (bridge_vlan_del link i.vid i.port_vid i.egress_untag false true) ∷ [];
          world =
              (k.perform (bridge_vlan_del link i.vid i.port_vid i.egress_untag false true)
                s.world).1;
        } in
        let (t, e, c) = drop_stale-has_id is vids s1 h.1 in
        (
          t,
          rw (unwanted, remove_absent i.vid vids unwanted) e,
          λ v. ground (
            arith,
            c v,
            carries-del link i.vid i.port_vid i.egress_untag s.world (int32 link.index) v,
            unwanted,
          ),
        )
  ]

  add_each-has_id :
      (vids : List ℕ) (s : State W)
      → (t : State W) × (for_each vids (add_vid k link) s ≡ returned tt t)
        × ((v : ℕ) → has_id v t ≡ (contains v vids || has_id v s))
  unfolding for_each add_vid contains pure netlink ◌>>=◌
  add_each-has_id [] s = (s, refl, λ v. refl)
  add_each-has_id (vid ∷ vids) s =
      let s1 : State W = record s {
        calls = s.calls ++ net (bridge_vlan_add link vid false false false true) ∷ [];
        world = (k.perform (bridge_vlan_add link vid false false false true) s.world).1;
      } in
      let (t, e, c) = add_each-has_id vids s1 in
      (
        t,
        e,
        λ v. ground (arith, c v, carries-add link vid false false s.world (int32 link.index) v),
      )

  add_missing-has_id :
      (vids : VidSet) (s : State W)
      → (t : State W) × (add_missing k link vids s ≡ returned tt t)
        × ((v : ℕ) → has_id v t ≡ (has v vids || (is_empty vids && v == 1) || has_id v s))
  unfolding add_missing has lookup pure netlink ◌>>=◌
  add_missing-has_id [] s = (
    record s {
      calls = s.calls ++ net (bridge_vlan_add link 1 true true false true) ∷ [];
      world = (k.perform (bridge_vlan_add link 1 true true false true) s.world).1;
    },
    refl,
    λ v. ground (arith, carries-add link 1 true true s.world (int32 link.index) v),
  )
  add_missing-has_id (x ∷ vids) s =
      let (t, e, c) = add_each-has_id (keys (x ∷ vids)) s in
      (t, e, λ v. c v ∙ ap (λ b. b || has_id v s) (contains-keys (x ∷ vids) v) ∙ ground arith)

  -- On a port whose entries have distinct ids, `bridgeVlanIDReconcile` leaves exactly the wanted
  -- ids, and VLAN 1 if the port had all of them.
  pub bridge_vlan_id_reconcile-has_id :
      (info : ℕ → List BridgeVlanInfo) (vids : VidSet) (s : State W)
      → k.bridge_vlan_list s.world ≡ ok info
      → DistinctVids (info (int32 link.index))
      → (t : State W) × (bridge_vlan_id_reconcile k link info vids s
          ≡ returned (missing (info (int32 link.index)) vids) t)
        × ((v : ℕ)
            → has_id v t
              ≡ (has v vids || (is_empty (missing (info (int32 link.index)) vids) && v == 1)))
  unfolding bridge_vlan_id_reconcile carries pure ◌>>=◌
  bridge_vlan_id_reconcile-has_id info vids s listed h =
      let is = info (int32 link.index) in
      let (t, e, c) = drop_stale-has_id is vids s h in
      let (u, e', c') = add_missing-has_id (missing is vids) t in
      let now = λ (v : ℕ). ap (λ r. lists v (entries_of (int32 link.index) r)) listed in
      (
        u,
        rw (e, e'),
        λ v. ground (arith, c' v, c v, now v, has-missing is vids v, empty_missing is vids v),
      )
