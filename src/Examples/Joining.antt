-- ===== src/Examples/Joining.antt =====
-- The VLAN interfaces of a new bridge on the small kernel.
use text.Mathlib.TextEquality.{eq_iff}
use bridge_operator.Prelude.{
  Bool-cases, Error, String, [], arith, beq_refl, err, if◌then◌else◌, inl, inr, int_eq, length,
  nat_eq, not_found, ok, pos, refl, string_eq, suc, ◌++◌, ◌==◌, ◌∷◌, ◌≡◌,
}
use bridge_operator.Egress.Masters.{master}
use bridge_operator.Examples.Attaching.{small_kernel-GrantsMasters}
use bridge_operator.Examples.World.{World, find_name, small_kernel}
use bridge_operator.Netlink.{Link, link_add}
use bridge_operator.Tracker.{name_eq}
use bridge_operator.Types.{EgressVlanInterface, interface_eq, vlan_interface_eq}
use bridge_operator.Vlan.Joined.{GrantsVlans}

pub find-append :
    (p : String) (w : World) (l : Link)
    → find_name p (w ++ l ∷ [])
      ≡ elim (find_name p w) [ ok m ↦ ok m | err e ↦ if l.name == p then ok l else err not_found ]
find-append p [] l = refl
find-append p (m ∷ w) l = ground (arith, find-append p w l)

only_not_found : (n : String) (w : World) (e : Error) → find_name n w ≡ err e → e ≡ not_found
only_not_found n [] e h = cc
only_not_found n (l ∷ w) e h = elim (Bool-cases (l.name == n)) [
  | inl same ↦ absurd (ground (arith, same, h))
  | inr other ↦ only_not_found n w e (rw other at h)
]

pub added :
    (new : Link) (w : World)
    → find_name new.name w ≡ err not_found
    → (small_kernel.perform (link_add new) w).1 ≡ w ++ record new { index = suc (length w) } ∷ []
added new w free = ground (arith, free)

pub small_kernel-GrantsVlans : GrantsVlans small_kernel
unfolding master
small_kernel-GrantsVlans = record {
  grants = small_kernel-GrantsMasters;
  only_missing = only_not_found;
  adds = λ new w free. ground (arith, free);
  master-add = λ new w p free.
      rw (added new w free, find-append p w (record new { index = suc (length w) }))
        (ground (arith, free, eq_iff new.name p));
  ensured = λ new w free.
      rw
        (
          added new w free,
          find-append new.name w (record new { index = suc (length w) }),
          free,
          beq_refl new.name,
        )
        (refl, refl);
  sets_up = λ link w. refl;
  master-set_up = λ link w p. refl;
}

abbrev pub lan : EgressVlanInterface
lan = record { name = "eth0"; protocol = "802.1q"; id = pos 10 }
