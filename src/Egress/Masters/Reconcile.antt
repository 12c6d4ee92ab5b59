-- ===== src/Egress/Masters/Reconcile.antt =====
-- What `egressInterfaceReconcile` (pkg/server/bridgeconfig.go) does to the masters of all links.
use text.Mathlib.TextEquality.{eq_iff}
use bridge_operator.Prelude.{
  Bool, Bool-cases, List, Option, String, [], ap, arith, contains, false, if◌then◌else◌, inl, inr,
  int_eq, keep, nat_eq, none, not, refl, string_eq, true, ℕ, ◌&&◌, ◌==◌, ◌∙◌, ◌∷◌, ◌≡◌,
}
use bridge_operator.Egress.{add_interface, difference, egress_interface_reconcile, remove_interface}
use bridge_operator.Egress.Masters.{
  BringsAll, GrantsMasters, attached, for_each-BringsAll, master, mentions, zeroed,
}
use bridge_operator.Egress.Masters.Release.{release-Brings}
use bridge_operator.Egress.Masters.Steps.{attach-Brings, attached_in, master_in, released_in}
use bridge_operator.Netlink.{Kernel, Link}
use bridge_operator.Ports.{is_port_managed}
use bridge_operator.State.{State, pure, returned, ◌>>=◌}
use bridge_operator.Types.{EgressInterface, interface_eq, vlan_interface_eq}

abbrev pub of_name : String → EgressInterface
of_name p = record { name = p }

mentions-keep :
    (p : String) (q : EgressInterface → Bool) (xs : List EgressInterface)
    → mentions p (keep q xs) ≡ (contains (of_name p) xs && q (of_name p))
unfolding keep contains
mentions-keep p q [] = refl
mentions-keep p q (x ∷ xs) = elim (Bool-cases (x.name == p)) [
  | inl same ↦
      let e : x ≡ of_name p = ap of_name ((eq_iff x.name p).0 same) in
      ground (arith, mentions-keep p q xs, same, ap q e, eq_iff x.name p, eq_iff p x.name)
  | inr other ↦ ground (arith, mentions-keep p q xs, other, eq_iff x.name p, eq_iff p x.name)
]

mentions-difference :
    (p : String) (xs ys : List EgressInterface)
    → mentions p (difference xs ys) ≡ (contains (of_name p) xs && not (contains (of_name p) ys))
unfolding difference
mentions-difference p xs ys = mentions-keep p (λ x. not (contains x ys)) xs

module _ {W : Type 0} (k : Kernel W) (br : Link) where
  -- The master that a port is to have: the bridge if it is wanted anew and has none; none if it is
  -- wanted no more and the daemon manages it; and otherwise the one that it has.
  abbrev pub wanted_master :
      List EgressInterface → List EgressInterface → String → State W → Option ℕ
  wanted_master olds news p s =
      let was = contains (of_name p) olds in
      let is = contains (of_name p) news in
      let now = master k p s.world in
      if is && not was
      then attached br.index now
      else if (was && not is) && is_port_managed br.name p s.managed_bridge_ports
      then zeroed now
      else now

module _ {W : Type 0} (k : Kernel W) (grants : GrantsMasters k) (br : Link) where
  removals :
      (p : String) (vs : List EgressInterface) (s : State W)
      → BringsAll p
          (released_in k grants br p)
          (master_in k grants br p)
          (remove_interface k br)
          vs
          s
  removals p = for_each-BringsAll p _ _ _ (release-Brings k grants br p)

  additions :
      (p : String) (vs : List EgressInterface) (s : State W)
      → BringsAll p (attached_in k grants br p) (master_in k grants br p) (add_interface k br) vs s
  additions p = for_each-BringsAll p _ _ _ (attach-Brings k grants br p)

  -- If the kernel refuses no change of a master, then `egressInterfaceReconcile` returns no error,
  -- and leaves each link with the master that it is to have: a link that is newly wanted and has no
  -- master gets the bridge, one that is wanted no more and that the daemon manages as a port of the
  -- bridge gets none, and any other one keeps its master.
  pub egress_interface_reconcile-wanted_master :
      (olds news : List EgressInterface) (p : String) (s : State W)
      → (t : State W) × (egress_interface_reconcile k br olds news s ≡ returned none t)
        × (master k p t.world ≡ wanted_master k br olds news p s)
  unfolding egress_interface_reconcile pure ◌>>=◌ master_in released_in attached_in
  egress_interface_reconcile-wanted_master olds news p s =
      let released = removals p (difference olds news) s in
      let joined = additions p (difference news olds) released.end in
      (
        joined.end,
        rw (released.all_run, joined.all_run) refl,
        combined (contains (of_name p) olds) (contains (of_name p) news) s released.end joined.end
            (released.all_bring ∙ rw (mentions-difference p olds news) refl)
            (joined.all_bring ∙ rw (mentions-difference p news olds) refl),
      )
    where
      combined :
          (was is : Bool) (s u t : State W)
          → (master_in k grants br p u
              ≡ (if was && not is then released_in k grants br p s else master_in k grants br p s))
          → (master_in k grants br p t
              ≡ (if is && not was then attached_in k grants br p u else master_in k grants br p u))
          → master k p t.world ≡ (
              if is && not was
              then attached br.index (master k p s.world)
              else if (was && not is) && is_port_managed br.name p s.managed_bridge_ports
              then zeroed (master k p s.world)
              else master k p s.world)
      combined true true s u t e f = f ∙ e
      combined true false s u t e f = f ∙ e
      combined false true s u t e f = f ∙ ap (attached br.index) e
      combined false false s u t e f = f ∙ e
