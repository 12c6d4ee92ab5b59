-- ===== src/Filtering/SharedSet.antt =====
-- The set of VLAN ids that the egress ports of a bridge share (`vlanIDSet`).
use mathlib.Core.List.{append_assoc}
use bridge_operator.Prelude.{
  All, All-append, Bool-cases, Elem, Elem-append_left, Elem-keep, Elem-map, List, [], ap, arith,
  false, here, inl, inr, int_eq, keep, map, nat_eq, not, string_eq, sym, there, true, ℕ, ◌++◌, ◌==◌,
  ◌∙◌, ◌∷◌, ◌≡◌, ◌≢◌, ◌⊎◌,
}
use bridge_operator.Filtering.{NameSet, VidSet, int32, reconcile_ports}
use bridge_operator.Filtering.Plan.{
  DistinctVids, add_call, add_calls, bridge_vlan_id_reconcile-plan, del_call, missing, plan, stale,
}
use bridge_operator.GoMap.{has, keys, lookup, remove}
use bridge_operator.GoMap.Laws.{has-remove}
use bridge_operator.Netlink.{BridgeVlanInfo, Kernel, Link, bridge_vlan_add, bridge_vlan_del}
use bridge_operator.State.{Call, State, final, net, pure, ◌>>=◌}
use bridge_operator.Types.{interface_eq, vlan_interface_eq}

has-missing_absent :
    (is : List BridgeVlanInfo) (vids : VidSet) (vid : ℕ)
    → has vid vids ≡ false
    → has vid (missing is vids) ≡ false
unfolding missing
has-missing_absent [] vids vid h = h
has-missing_absent (i ∷ is) vids vid h =
    has-missing_absent is (remove i.vid vids) vid (ground (arith, h, has-remove i.vid vid vids))

has-missing_present :
    (is : List BridgeVlanInfo) (vids : VidSet) (i : BridgeVlanInfo)
    → Elem i is
    → has i.vid (missing is vids) ≡ false
unfolding missing
has-missing_present [] vids j m = elim m [ ]
has-missing_present (i ∷ is) vids j here =
    has-missing_absent is (remove i.vid vids) i.vid (ground (arith, has-remove i.vid i.vid vids))
has-missing_present (i ∷ is) vids j (there m) = has-missing_present is (remove i.vid vids) j m

-- The id that a call deletes.
abbrev deleted_vid : Call → ℕ
deleted_vid (net (bridge_vlan_del link vid _ _ _ _)) = vid
deleted_vid _ = 0

module _ (link : Link) (i : BridgeVlanInfo) where
  differs :
      (j : BridgeVlanInfo) (vids : VidSet)
      → has i.vid vids ≡ true
      → has j.vid vids ≡ false
      → j.vid ≢ i.vid
  differs j vids h e same = cc (h, e, ap (λ v. has v vids) same)

  stale_spares :
      (is : List BridgeVlanInfo) (vids : VidSet)
      → has i.vid vids ≡ true
      → All (λ c. c ≢ del_call link i) (map (del_call link) (stale is vids))
  unfolding keep
  stale_spares [] vids h = tt
  stale_spares (j ∷ is) vids h = elim (Bool-cases (has j.vid vids)) [
    | inl e ↦ rw e (stale_spares is vids h)
    | inr e ↦ rw e ((λ same. differs j vids h e (ap deleted_vid same)), stale_spares is vids h)
  ]

  adds_spare : (vids : List ℕ) → All (λ c. c ≢ del_call link i) (map (add_call link) vids)
  adds_spare [] = tt
  adds_spare (v ∷ vids) = ((λ e. cc), adds_spare vids)

  add_calls_spare : (vids : VidSet) → All (λ c. c ≢ del_call link i) (add_calls link vids)
  add_calls_spare [] = ((λ e. cc), tt)
  add_calls_spare (v ∷ vids) = adds_spare (keys (v ∷ vids))

  -- A wanted id is not deleted.
  plan_spares_wanted :
      (is : List BridgeVlanInfo) (vids : VidSet)
      → has i.vid vids ≡ true
      → All (λ c. c ≢ del_call link i) (plan link is vids)
  unfolding plan
  plan_spares_wanted is vids h =
      All-append _ (map (del_call link) (stale is vids)) _ (stale_spares is vids h)
        (add_calls_spare (missing is vids))

planned_deletion :
    (link : Link) (is : List BridgeVlanInfo) (vids : VidSet) (j : BridgeVlanInfo)
    → Elem j is
    → has j.vid vids ≡ false
    → Elem (del_call link j) (plan link is vids)
unfolding plan
planned_deletion link is vids j m h =
    Elem-append_left _ (Elem-map (del_call link) (Elem-keep (λ i. not (has i.vid vids)) m (rw h)))

-- The call adds no entry with this id.
abbrev pub AddsNot : ℕ → Call → Type 0
AddsNot vid (net (bridge_vlan_add link u _ _ _ _)) = u ≢ vid
AddsNot vid _ = Unit {0}

module _ (link : Link) (vid : ℕ) where
  del_call-AddsNot : (is : List BridgeVlanInfo) → All (AddsNot vid) (map (del_call link) is)
  del_call-AddsNot [] = tt
  del_call-AddsNot (i ∷ is) = (tt, del_call-AddsNot is)

  keys-AddsNot :
      (vids : VidSet) → has vid vids ≡ false → All (AddsNot vid) (map (add_call link) (keys vids))
  unfolding has lookup keys
  keys-AddsNot [] h = tt
  keys-AddsNot ((u, t) ∷ vids) h =
      (λ same. absurd (ground (arith, h, same)), keys-AddsNot vids (ground (arith, h)))

  add_calls-AddsNot :
      (vids : VidSet) → has vid vids ≡ false → vid ≢ 1 → All (AddsNot vid) (add_calls link vids)
  add_calls-AddsNot [] h other = (λ e. other (sym e), tt)
  add_calls-AddsNot (v ∷ vids) h other = keys-AddsNot (v ∷ vids) h

  -- An id that is not in the set is not added, but for VLAN 1.
  plan-AddsNot :
      (is : List BridgeVlanInfo) (vids : VidSet)
      → has vid vids ≡ false
      → vid ≢ 1
      → All (AddsNot vid) (plan link is vids)
  unfolding plan
  plan-AddsNot is vids h other =
      All-append _ (map (del_call link) (stale is vids)) _ (del_call-AddsNot (stale is vids))
        (add_calls-AddsNot (missing is vids) (has-missing_absent is vids vid h) other)

-- The calls for two ports: those of the first one do not delete the id there, those of the second one
-- do, and do not add it again if it is not VLAN 1.
pub record LosesWanted {W : Type 0} (run : List Link → State W) (s : State W) (first second : Link)
    (i j : BridgeVlanInfo) : Type 0 where
  pub first_calls : List Call
  pub second_calls : List Call
  pub made_for_first : (run (first ∷ [])).calls ≡ s.calls ++ first_calls
  pub made_for_both : (run (first ∷ second ∷ [])).calls ≡ s.calls ++ (first_calls ++ second_calls)
  pub spared : All (λ c. c ≢ del_call first i) first_calls
  pub deleted : Elem (del_call second j) second_calls
  pub not_added : (j.vid ≡ 1) ⊎ All (AddsNot j.vid) second_calls

module _ {W : Type 0} (k : Kernel W) where
  -- Two egress ports of a bridge whose entries have distinct ids both carry a wanted id: no call that
  -- is made for the first port deletes it there, a call that is made for the second port deletes it
  -- there, and none of these adds it, unless it is VLAN 1.
  pub reconcile_ports-deletes_wanted :
      (names : NameSet) (info : ℕ → List BridgeVlanInfo) (vids : VidSet) (s : State W)
      → (first second : Link) (i j : BridgeVlanInfo) → has first.name names ≡ true
      → has second.name names ≡ true
      → DistinctVids (info (int32 first.index))
      → DistinctVids (info (int32 second.index))
      → Elem i (info (int32 first.index))
      → Elem j (info (int32 second.index))
      → j.vid ≡ i.vid
      → has i.vid vids ≡ true
      → LosesWanted (λ ports. final (reconcile_ports k names info ports vids s)) s first second i j
  unfolding reconcile_ports pure ◌>>=◌
  reconcile_ports-deletes_wanted names info vids s first second i j n1 n2 d1 d2 m1 m2 same wanted =
      let (t, e, c) = bridge_vlan_id_reconcile-plan k first info vids s d1 in
      let left = missing (info (int32 first.index)) vids in
      let (u, e', c') = bridge_vlan_id_reconcile-plan k second info left t d2 in
      let gone : has j.vid left ≡ false =
        ap (λ v. has v left) same ∙ has-missing_present (info (int32 first.index)) vids i m1 in
      let calls1 = plan first (info (int32 first.index)) vids in
      let calls2 = plan second (info (int32 second.index)) left in
      record {
        first_calls = calls1;
        second_calls = calls2;
        made_for_first = rw (n1, e) c;
        made_for_both =
            rw (n1, e, n2, e') (c' ∙ ap (λ l. l ++ calls2) c ∙ append_assoc s.calls calls1 calls2);
        spared = plan_spares_wanted first i (info (int32 first.index)) vids wanted;
        deleted = planned_deletion second (info (int32 second.index)) left j m2 gone;
        not_added = elim (Bool-cases (j.vid == 1)) [
          | inl default ↦ inl (ground (arith, default))
          | inr other ↦ inr (
              plan-AddsNot second j.vid (info (int32 second.index)) left gone
                (λ e. absurd (ground (arith, other, e))))
        ];
      }
