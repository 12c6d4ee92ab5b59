-- ===== src/Vlan/Removed/Loop.antt =====
-- All removals of `egressVlanInterfaceReconcile` (pkg/server/bridgeconfig.go), and what they leave.
use mathlib.Core.Path.{subst}
use text.Mathlib.TextEquality.{eq_iff}
use bridge_operator.Prelude.{
  All, Bool, Bool-cases, List, String, [], ap, arith, contains, false, inl, inr, int_eq, nat_eq,
  refl, string_eq, sym, true, ◌==◌, ◌∙◌, ◌∷◌, ◌≡◌, ◌≢◌, ◌⊎◌,
}
use bridge_operator.Egress.Masters.{GrantsMasters}
use bridge_operator.Netlink.{Kernel, Link}
use bridge_operator.Ports.{is_port_managed, remove_port, remove_port_management}
use bridge_operator.Ports.Laws.{is_port_managed-port_entry, port_entry-remove_port_management}
use bridge_operator.State.{M, Ports, State, for_each, modify_ports, pure, returned, ◌>>=◌}
use bridge_operator.State.Safe.{Goes, for_each-Goes}
use bridge_operator.Types.{EgressVlanInterface, interface_eq, vlan_interface_eq}
use bridge_operator.Vlan.{remove_vlan_interface}
use bridge_operator.Vlan.Removed.{
  FreesName, release_vlan-FreesName, Absent, Distinct, GrantsRemovals, Present,
}
use bridge_operator.VlanName.{generate_egress_vlan_interface_name}

module _ {W : Type 0} (k : Kernel W) (grants : GrantsMasters k) (removals : GrantsRemovals k)
    (br : Link) (n : String) (has_index : (br.index == 0) ≡ false) where
  -- The link `n` is a port of the bridge that the daemon manages, or it is gone.
  abbrev pub Kept : Ports → W → Type 0
  Kept m w =
      ((is_port_managed br.name n m ≡ true) × Present k grants removals br n w)
      ⊎ Absent k grants removals br n w

  abbrev pub Removing : State W → Type 0
  Removing s = Kept s.managed_bridge_ports s.world × Distinct k grants removals br n s.world

  abbrev Done : String → State W → Type 0
  Done y s = y ≡ n → Absent k grants removals br n s.world

  -- A step that released `q` and left the table `m`.
  module _ (q : String) {body : M W Bool} (s : State W)
      (r : FreesName k grants removals br n q body s) (inv : Removing s) where
    freed : q ≡ n → Absent k grants removals br n r.left.world
    freed same = elim inv.0 [
      | inl (managed, present) ↦
          r.frees_self
            (subst (λ x. is_port_managed br.name x s.managed_bridge_ports ≡ true) (sym same)
              managed)
            same (inl present)
      | inr away ↦ r.frees.absent away
    ]

    remaining :
        (m : Ports)
        → (q ≢ n
            → is_port_managed br.name n s.managed_bridge_ports ≡ true
            → is_port_managed br.name n m ≡ true)
        → Kept m r.left.world
    remaining m table = elim (Bool-cases (q == n)) [
      | inl same ↦ inr (freed ((eq_iff q n).0 same))
      | inr other ↦ elim inv.0 [
        | inl (managed, present) ↦ elim (r.frees.present present) [
          | inl here_still ↦
              inl (table (λ e. absurd (ground (arith, other, e, eq_iff q n))) managed, here_still)
          | inr away ↦ inr away
        ]
        | inr away ↦ inr (r.frees.absent away)
      ]
    ]

    stays_gone : (y : String) → Done y s → Done y r.left
    stays_gone y done same = r.frees.absent (done same)

  remove_other :
      (q : String) (m : Ports)
      → q ≢ n
      → is_port_managed br.name n m ≡ true
      → is_port_managed br.name n (remove_port_management br.name q m).1 ≡ true
  remove_other q m other managed = ground (
    arith,
    managed,
    other,
    eq_iff q n,
    is_port_managed-port_entry br.name n m,
    is_port_managed-port_entry br.name n (remove_port_management br.name q m).1,
    port_entry-remove_port_management br.name q br.name n m,
  )

  remove_vlan_interface-Goes :
      (v : EgressVlanInterface) (s : State W)
      → Removing s
      → (g : Goes Removing Done (remove_vlan_interface k br v) s) × Done
          (generate_egress_vlan_interface_name v)
          g.after
  unfolding remove_vlan_interface remove_port modify_ports pure ◌>>=◌
  remove_vlan_interface-Goes v s inv =
      let q = generate_egress_vlan_interface_name v in
      let r = release_vlan-FreesName k grants removals br n has_index v s inv.1 in
      elim (Bool-cases r.answer) [
        | inl released ↦ (
          record {
            after = record r.left {
              managed_bridge_ports =
                  (remove_port_management br.name q r.left.managed_bridge_ports).1;
            };
            runs = rw (r.returns, released) refl;
            inv = (
              remaining q s r inv (remove_port_management br.name q r.left.managed_bridge_ports).1
                  (λ other managed.
                    remove_other q r.left.managed_bridge_ports other (rw r.same_table managed)),
              r.frees.distinct inv.1,
            );
            stays = stays_gone q s r inv;
          },
          freed q s r inv,
        )
        | inr refused ↦ (
          record {
            after = r.left;
            runs = rw (r.returns, refused) refl;
            inv = (
              remaining q s r inv r.left.managed_bridge_ports
                  (λ other managed. rw r.same_table managed),
              r.frees.distinct inv.1,
            );
            stays = stays_gone q s r inv;
          },
          freed q s r inv,
        )
      ]

  gone_after :
      (vs : List EgressVlanInterface) (v : EgressVlanInterface) (t : State W)
      → contains v vs ≡ true
      → generate_egress_vlan_interface_name v ≡ n
      → All (λ x. Done (generate_egress_vlan_interface_name x) t) vs
      → Absent k grants removals br n t.world
  unfolding contains
  gone_after [] v t listed named all = absurd (ground (arith, listed))
  gone_after (x ∷ vs) v t listed named all = elim (Bool-cases (v == x)) [
    | inl same ↦ all.0 (
        ap generate_egress_vlan_interface_name (sym ((vlan_interface_eq.beq_iff v x).0 same))
        ∙ named)
    | inr other ↦ gone_after vs v t (rw other at listed) named all.1
  ]

  -- All removals return, and take the link of each of the interfaces away.
  pub removals-Absent :
      (vs : List EgressVlanInterface) (v : EgressVlanInterface) (s : State W)
      → contains v vs ≡ true
      → generate_egress_vlan_interface_name v ≡ n
      → Removing s
      → (t : State W) × (for_each vs (remove_vlan_interface k br) s ≡ returned tt t)
        × Absent k grants removals br n t.world
  removals-Absent vs v s listed named inv =
      let (g, all) =
        for_each-Goes Removing Done generate_egress_vlan_interface_name (remove_vlan_interface k br)
          remove_vlan_interface-Goes vs s inv in
      (g.after, g.runs, gone_after vs v g.after listed named all)
