-- ===== src/Egress/Difference.antt =====
-- `egressInterfaceReconcile` (pkg/server/bridgeconfig.go) where no interface is to be added or
-- removed.
use bridge_operator.Prelude.{
  All, All-map, Bool, Bool-cases, Eq, List, [], ap, arith, contains, inl, inr, int_eq, keep,
  keep-none, nat_eq, none, not, refl, string_eq, true, ◌&&◌, ◌==◌, ◌∷◌, ◌≡◌,
}
use bridge_operator.Egress.{difference, egress_interface_reconcile}
use bridge_operator.Netlink.{Kernel, Link}
use bridge_operator.State.{State, for_each, returned, ◌>>=◌}
use bridge_operator.Types.{EgressInterface, interface_eq, vlan_interface_eq}

-- Every element of the first list is in the second.
abbrev pub IsSublistOf : {A : Type 0} ⦃e : Eq A⦄ → List A → List A → Type 0
IsSublistOf xs ys = All (λ x. contains x ys ≡ true) xs

pub difference-sub :
    {A : Type 0} ⦃e : Eq A⦄ (xs ys : List A) → IsSublistOf xs ys → difference xs ys ≡ []
unfolding difference
difference-sub xs ys h = keep-none (λ x. not (contains x ys)) xs (All-map _ _ xs (λ x e. rw e) h)

contains-keep :
    {A : Type 0} ⦃e : Eq A⦄ (v : A) (q : A → Bool) (xs : List A)
    → contains v (keep q xs) ≡ (contains v xs && q v)
unfolding contains keep
contains-keep v q [] = refl
contains-keep ⦃e⦄ v q (x ∷ xs) = elim (Bool-cases (v == x)) [
  | inl same ↦ ground (arith, contains-keep v q xs, same, ap q ((e.beq_iff v x).0 same))
  | inr other ↦ ground (arith, contains-keep v q xs, other)
]

pub contains-difference :
    {A : Type 0} ⦃e : Eq A⦄ (v : A) (xs ys : List A)
    → contains v (difference xs ys) ≡ (contains v xs && not (contains v ys))
unfolding difference
contains-difference v xs ys = contains-keep v (λ x. not (contains x ys)) xs

-- `egressInterfaceReconcile` between lists with the same elements, in whichever order, makes no
-- call and leaves the state as it is.
pub egress_interface_reconcile-same :
    {W : Type 0} (k : Kernel W) (br : Link) (olds news : List EgressInterface) (s : State W)
    → IsSublistOf olds news
    → IsSublistOf news olds
    → egress_interface_reconcile k br olds news s ≡ returned none s
unfolding egress_interface_reconcile for_each ◌>>=◌
egress_interface_reconcile-same k br olds news s h g =
    rw (difference-sub olds news h, difference-sub news olds g)
