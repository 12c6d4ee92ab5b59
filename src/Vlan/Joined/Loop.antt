-- ===== src/Vlan/Joined/Loop.antt =====
-- The loop of `egressVlanInterfaceReconcile` (pkg/server/bridgeconfig.go) over the VLAN interfaces
-- that are to be added.
use mathlib.Core.Path.{subst}
use bridge_operator.Prelude.{
  All, Bool-cases, List, Result-cases, String, [], ap, arith, beq_refl, contains, err, false, inl,
  inr, int_eq, keep, nat_eq, none, refl, some, string_eq, sym, true, ◌==◌, ◌∙◌, ◌∷◌, ◌≡◌, ◌≢◌,
}
use bridge_operator.Egress.{difference}
use bridge_operator.Egress.Masters.{master}
use bridge_operator.Egress.Masters.Steps.{master-found}
use bridge_operator.Egress.Rules.{difference-nil}
use bridge_operator.Netlink.{Kernel, Link}
use bridge_operator.Ports.{set_port, set_port_management}
use bridge_operator.State.{State, for_each, gets, modify_ports, pure, returned, ◌>>=◌}
use bridge_operator.Types.{EgressVlanInterface, interface_eq, vlan_interface_eq}
use bridge_operator.Vlan.{
  add_below, add_vlan_interface, egress_vlan_interface_reconcile, ensure_vlan, new_vlan,
  remove_vlan_interface,
}
use bridge_operator.Vlan.Joined.{
  GrantsVlans, Grows, Grows-refl, Grows-trans, create-Joined, is_there, join_bridge-Joined,
  master-there,
}
use bridge_operator.VlanName.{generate_egress_vlan_interface_name}

module _ {W : Type 0} (k : Kernel W) (grants_vlans : GrantsVlans k) (br : Link) where
  open grants_vlans use {grants, only_missing}

  no_removals :
      (news : List EgressVlanInterface) (s : State W)
      → for_each (difference [] news) (remove_vlan_interface k br) s ≡ returned tt s
  unfolding difference keep for_each pure
  no_removals news s = refl

  -- A step of the loop over the interfaces that are to be added.
  record Step (v : EgressVlanInterface) (s : State W) : Type 0 where
    after : State W
    runs : add_vlan_interface k br v s ≡ returned tt after
    grows : Grows k grants_vlans br s.world after.world
    gets_in :
        is_there (master k v.name s.world) ≡ true
        → master k (generate_egress_vlan_interface_name v) after.world ≡ some br.index
    no_others :
        (p : String)
        → generate_egress_vlan_interface_name v ≢ p
        → master k p s.world ≡ none
        → master k p after.world ≡ none

  add_vlan_interface-Step : (v : EgressVlanInterface) (s : State W) → Step v s
  unfolding add_vlan_interface add_below ensure_vlan new_vlan set_port modify_ports gets pure ◌>>=◌
  add_vlan_interface-Step v s = elim (Result-cases (k.link_by_name v.name s.world)) [
    | inl (e, missing) ↦
        let gone =
          master-found k grants br v.name v.name s.world (err e) missing (beq_refl v.name) in
        record {
          after = s;
          runs = rw missing refl;
          grows = Grows-refl k grants_vlans br s.world;
          gets_in = λ h. absurd (ground (arith, gone, h));
          no_others = λ p other h. h;
        }
    | inr (parent, found) ↦
        elim (Result-cases (k.link_by_name (generate_egress_vlan_interface_name v) s.world)) [
          | inl (e, missing) ↦
              let free = missing ∙ ap err (only_missing _ s.world e missing) in
              let made = create-Joined k grants_vlans br (new_vlan v parent) s free in
              record {
                after = made.end;
                runs = rw (found, free) made.ran;
                grows = made.grew;
                gets_in = λ h. made.joined;
                no_others = made.no_others;
              }
          | inr (link, old) ↦
              let n = generate_egress_vlan_interface_name v in
              let t : State W = record s {
                managed_bridge_ports =
                    (set_port_management br.name n false s.managed_bridge_ports).1;
              } in
              let last =
                join_bridge-Joined k grants_vlans br n link t (grants.named n s.world link old)
                  (master-there k grants_vlans br n s.world link old) in
              record {
                after = last.end;
                runs = rw (found, old) last.ran;
                grows = last.grew;
                gets_in = λ h. last.joined;
                no_others = last.no_others;
              }
        ]
  ]

  pub record Steps (vs : List EgressVlanInterface) (s : State W) : Type 0 where
    pub final_state : State W
    pub all_run : for_each vs (add_vlan_interface k br) s ≡ returned tt final_state
    pub all_grow : Grows k grants_vlans br s.world final_state.world
    pub all_in :
        (v : EgressVlanInterface)
        → contains v vs ≡ true
        → is_there (master k v.name s.world) ≡ true
        → master k (generate_egress_vlan_interface_name v) final_state.world ≡ some br.index
    pub all_no_others :
        (p : String)
        → All (λ v. generate_egress_vlan_interface_name v ≢ p) vs
        → master k p s.world ≡ none
        → master k p final_state.world ≡ none

  pub for_each-Steps : (vs : List EgressVlanInterface) (s : State W) → Steps vs s
  unfolding for_each contains pure ◌>>=◌
  for_each-Steps [] s = record {
    final_state = s;
    all_run = refl;
    all_grow = Grows-refl k grants_vlans br s.world;
    all_in = λ v h g. absurd (ground (arith, h));
    all_no_others = λ p others h. h;
  }
  for_each-Steps (x ∷ vs) s =
      let one = add_vlan_interface-Step x s in
      let rest = for_each-Steps vs one.after in
      record {
        final_state = rest.final_state;
        all_run = rw one.runs rest.all_run;
        all_grow =
            Grows-trans k grants_vlans br s.world one.after.world rest.final_state.world one.grows
              rest.all_grow;
        all_in = λ v h g. elim (Bool-cases (v == x)) [
          | inl same ↦
              let e = (vlan_interface_eq.beq_iff v x).0 same in
              rest.all_grow.inside _ (
                subst
                  (λ y.
                    master k (generate_egress_vlan_interface_name y) one.after.world
                    ≡ some br.index)
                  (sym e)
                  (one.gets_in (subst (λ y. is_there (master k y.name s.world) ≡ true) e g)))
          | inr other ↦ rest.all_in v (rw other at h) (one.grows.stays v.name g)
        ];
        all_no_others = λ p others h. rest.all_no_others p others.1 (one.no_others p others.0 h);
      }

  -- The whole of it, where nothing is to be removed, takes no link away and none out of the bridge.
  pub egress_vlan_interface_reconcile-Grows :
      (news : List EgressVlanInterface) (s : State W)
      → (t : State W) × (egress_vlan_interface_reconcile k br [] news s ≡ returned none t)
        × Grows k grants_vlans br s.world t.world
  unfolding egress_vlan_interface_reconcile pure ◌>>=◌
  egress_vlan_interface_reconcile-Grows news s =
      let steps = for_each-Steps news s in
      (
        steps.final_state,
        rw (no_removals news s, difference-nil news, steps.all_run) refl,
        steps.all_grow,
      )

  -- If the kernel refuses no call, and a lookup fails only for a link that is not there, then
  -- `egressVlanInterfaceReconcile` from an empty list, as for a new bridge, returns no error, and
  -- every VLAN interface that is wanted and whose parent was there is in the bridge afterwards.
  pub egress_vlan_interface_reconcile-joined :
      (news : List EgressVlanInterface) (v : EgressVlanInterface) (s : State W)
      → contains v news ≡ true
      → is_there (master k v.name s.world) ≡ true
      → (t : State W) × (egress_vlan_interface_reconcile k br [] news s ≡ returned none t)
        × (master k (generate_egress_vlan_interface_name v) t.world ≡ some br.index)
  unfolding egress_vlan_interface_reconcile pure ◌>>=◌
  egress_vlan_interface_reconcile-joined news v s wanted parent =
      let steps = for_each-Steps news s in
      (
        steps.final_state,
        rw (no_removals news s, difference-nil news, steps.all_run) refl,
        steps.all_in v wanted parent,
      )
