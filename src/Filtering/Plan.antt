-- ===== src/Filtering/Plan.antt =====
-- The calls that `bridgeVlanIDReconcile` makes, as a plan that is stated without the loop.
use mathlib.Core.List.{append-nil, append_assoc}
use bridge_operator.Prelude.{
  All, Bool-cases, List, [], ap, arith, false, inl, inr, int_eq, keep, map, nat_eq, not, refl,
  string_eq, sym, true, ℕ, ◌++◌, ◌==◌, ◌∙◌, ◌∷◌, ◌≡◌,
}
use bridge_operator.Filtering.{
  VidSet, add_missing, add_vid, bridge_vlan_id_reconcile, drop_stale, int32,
}
use bridge_operator.GoMap.{has, keys, remove}
use bridge_operator.GoMap.Laws.{has-remove, remove_absent}
use bridge_operator.Netlink.{BridgeVlanInfo, Kernel, Link, bridge_vlan_add, bridge_vlan_del}
use bridge_operator.State.{Call, Outcome, State, for_each, net, netlink, pure, returned, ◌>>=◌}
use bridge_operator.Types.{interface_eq, vlan_interface_eq}

-- The ids that the port has and that are not wanted.
abbrev pub stale : List BridgeVlanInfo → VidSet → List BridgeVlanInfo
stale is vids = keep (λ i. not (has i.vid vids)) is

-- The wanted ids that the port has not.
unfoldable pub missing : List BridgeVlanInfo → VidSet → VidSet
missing [] vids = vids
missing (i ∷ is) vids = missing is (remove i.vid vids)

abbrev pub del_call : Link → BridgeVlanInfo → Call
del_call link i = net (bridge_vlan_del link i.vid i.port_vid i.egress_untag false true)

abbrev pub add_call : Link → ℕ → Call
add_call link vid = net (bridge_vlan_add link vid false false false true)

abbrev pub default_call : Link → Call
default_call link = net (bridge_vlan_add link 1 true true false true)

abbrev pub add_calls : Link → VidSet → List Call
add_calls link [] = default_call link ∷ []
add_calls link (v ∷ vids) = map (add_call link) (keys (v ∷ vids))

unfoldable pub plan : Link → List BridgeVlanInfo → VidSet → List Call
plan link is vids = map (del_call link) (stale is vids) ++ add_calls link (missing is vids)

-- No two entries of a port have the same id.
abbrev pub DistinctVids : List BridgeVlanInfo → Type 0
DistinctVids [] = Unit {0}
DistinctVids (i ∷ is) = All (λ j. (i.vid == j.vid) ≡ false) is × DistinctVids is

stale-remove :
    (is : List BridgeVlanInfo) (vid : ℕ) (vids : VidSet)
    → All (λ j. (vid == j.vid) ≡ false) is
    → stale is (remove vid vids) ≡ stale is vids
unfolding keep
stale-remove [] vid vids h = refl
stale-remove (i ∷ is) vid vids h =
    ground (arith, has-remove vid i.vid vids, stale-remove is vid vids h.1)

module _ {W : Type 0} (k : Kernel W) (link : Link) where
  -- After an action the calls are those before it and these.
  abbrev Adds : {A : Type 0} → List Call → State W → A → Outcome W A → Type 0
  Adds cs s a o = (t : State W) × (o ≡ returned a t) × (t.calls ≡ s.calls ++ cs)

  -- The state after the call that deletes an id.
  abbrev deleted : BridgeVlanInfo → State W → State W
  deleted i s = record s {
    calls = s.calls ++ del_call link i ∷ [];
    world = (k.perform (bridge_vlan_del link i.vid i.port_vid i.egress_untag false true) s.world).1;
  }

  drop_stale-Adds :
      (is : List BridgeVlanInfo) (vids : VidSet) (s : State W)
      → DistinctVids is
      → Adds (map (del_call link) (stale is vids)) s (missing is vids) (drop_stale k link is vids s)
  unfolding drop_stale keep missing pure netlink ◌>>=◌
  drop_stale-Adds [] vids s h = (s, refl, sym (append-nil s.calls))
  drop_stale-Adds (i ∷ is) vids s h = elim (Bool-cases (has i.vid vids)) [
    | inl wanted ↦
        let (t, e, c) = drop_stale-Adds is (remove i.vid vids) s h.1 in
        let same = stale-remove is i.vid vids h.0 in
        (t, rw wanted e, rw wanted (c ∙ ap (λ l. s.calls ++ map (del_call link) l) same))
    | inr unwanted ↦
        let (t, e, c) = drop_stale-Adds is vids (deleted i s) h.1 in
        (
          t,
          rw (unwanted, remove_absent i.vid vids unwanted) e,
          rw unwanted (c ∙ append_assoc s.calls (del_call link i ∷ []) _),
        )
  ]

  add_each-Adds :
      (vids : List ℕ) (s : State W)
      → Adds (map (add_call link) vids) s tt (for_each vids (add_vid k link) s)
  unfolding for_each add_vid pure netlink ◌>>=◌
  add_each-Adds [] s = (s, refl, sym (append-nil s.calls))
  add_each-Adds (vid ∷ vids) s =
      let (t, e, c) = add_each-Adds vids (record s {
        calls = s.calls ++ add_call link vid ∷ [];
        world = (k.perform (bridge_vlan_add link vid false false false true) s.world).1;
      }) in
      (t, e, c ∙ append_assoc s.calls (add_call link vid ∷ []) _)

  add_missing-Adds :
      (vids : VidSet) (s : State W) → Adds (add_calls link vids) s tt (add_missing k link vids s)
  unfolding add_missing pure netlink ◌>>=◌
  add_missing-Adds [] s = (
    record s {
      calls = s.calls ++ default_call link ∷ [];
      world = (k.perform (bridge_vlan_add link 1 true true false true) s.world).1;
    },
    refl,
    refl,
  )
  add_missing-Adds (v ∷ vids) s = add_each-Adds (keys (v ∷ vids)) s

  -- On a port whose entries have distinct ids, `bridgeVlanIDReconcile` deletes exactly the
  -- unwanted ids, then adds exactly the wanted ones that the port has not, or VLAN 1 as the
  -- untagged port id if none is missing; and it leaves in the caller's set only those it added.
  pub bridge_vlan_id_reconcile-plan :
      (info : ℕ → List BridgeVlanInfo) (vids : VidSet) (s : State W)
      → DistinctVids (info (int32 link.index))
      → (t : State W) × (bridge_vlan_id_reconcile k link info vids s
          ≡ returned (missing (info (int32 link.index)) vids) t)
        × (t.calls ≡ s.calls ++ plan link (info (int32 link.index)) vids)
  unfolding bridge_vlan_id_reconcile plan pure ◌>>=◌
  bridge_vlan_id_reconcile-plan info vids s h =
      let is = info (int32 link.index) in
      let (t, e, c) = drop_stale-Adds is vids s h in
      let (u, e', c') = add_missing-Adds (missing is vids) t in
      (
        u,
        rw (e, e'),
        c' ∙ ap (λ l. l ++ add_calls link (missing is vids)) c ∙ append_assoc s.calls _ _,
      )
