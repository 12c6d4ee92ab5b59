-- ===== src/Bridge/Forgotten.antt =====
-- What `bridgeUnconfigured` (pkg/server/bridgeconfig.go) leaves of the ports that the configuration
-- names.
use mathlib.Core.Path.{subst}
use text.Mathlib.TextEquality.{eq_iff}
use bridge_operator.Prelude.{
  All, Bool-cases, Eq, List, String, [], arith, inl, inr, int_eq, keep, nat_eq, none, refl,
  string_eq, sym, true, ◌==◌, ◌∷◌, ◌≡◌,
}
use bridge_operator.Bridge.Forgets.{
  Forgets, remove_interface-Forgets, remove_vlan_interface-Forgets,
}
use bridge_operator.Egress.{add_interface, difference, egress_interface_reconcile, remove_interface}
use bridge_operator.Egress.Masters.{mentions}
use bridge_operator.Egress.Rules.{difference-nil}
use bridge_operator.Filtering.Wanted.{names_vlan}
use bridge_operator.Netlink.{Kernel, Link}
use bridge_operator.Ports.Foreign.{
  KnownBridge, NotForeign, managed-NotForeign, removed-KnownBridge, removed-NotForeign,
  removed_self-NotForeign,
}
use bridge_operator.State.{M, State, for_each, pure, returned, ◌>>=◌}
use bridge_operator.State.Safe.{Goes, for_each-Goes}
use bridge_operator.Types.{EgressInterface, EgressVlanInterface, interface_eq, vlan_interface_eq}
use bridge_operator.Vlan.{
  add_vlan_interface, egress_vlan_interface_reconcile, remove_vlan_interface,
}
use bridge_operator.VlanName.{generate_egress_vlan_interface_name}

module _ {W : Type 0} (b : String) where
  abbrev pub Known : State W → Type 0
  Known s = KnownBridge b s.managed_bridge_ports

  abbrev pub Harmless : String → State W → Type 0
  Harmless n s = NotForeign b n s.managed_bridge_ports

  Forgets-Goes :
      {A : Type 0} (name : A → String) (m : M W (Unit {0})) (x : A) (s : State W)
      → Forgets b (name x) m s
      → Known s
      → (g : Goes Known Harmless m s) × Harmless (name x) g.after
  Forgets-Goes name m x s f h = elim f.table [
    | inl (managed, same) ↦ (
      record {
        after = f.after;
        runs = f.runs;
        inv = subst (KnownBridge b) (sym same) h;
        stays = λ y d. subst (NotForeign b y) (sym same) d;
      },
      subst (NotForeign b (name x)) (sym same)
          (managed-NotForeign b (name x) s.managed_bridge_ports managed),
    )
    | inr removed ↦ (
      record {
        after = f.after;
        runs = f.runs;
        inv =
            subst (KnownBridge b) (sym removed)
              (removed-KnownBridge b (name x) s.managed_bridge_ports h);
        stays = λ y d.
            subst (NotForeign b y) (sym removed)
              (removed-NotForeign b (name x) y s.managed_bridge_ports d);
      },
      subst (NotForeign b (name x)) (sym removed)
          (removed_self-NotForeign b (name x) s.managed_bridge_ports),
    )
  ]

nothing_to_add :
    {W A : Type 0} ⦃e : Eq A⦄ (xs : List A) (body : A → M W (Unit {0})) (s : State W)
    → for_each (difference [] xs) body s ≡ returned tt s
unfolding difference keep for_each pure
nothing_to_add xs body s = refl

-- The bridge is known, and any port that was harmless is.
pub record Left {W : Type 0} (b : String) (s t : State W) : Type 0 where
  pub known : Known b t
  pub stays : (n : String) → Harmless b n s → Harmless b n t

module _ {W : Type 0} (k : Kernel W) (br : Link) where
  pub interfaces_forgotten :
      (vs : List EgressInterface) (s : State W)
      → Known br.name s
      → (t : State W) × (egress_interface_reconcile k br vs [] s ≡ returned none t)
        × Left br.name s t
        × All (λ v. Harmless br.name v.name t) vs
  unfolding egress_interface_reconcile pure ◌>>=◌
  interfaces_forgotten vs s h =
      let (g, all) =
        for_each-Goes (Known br.name) (Harmless br.name) (λ v. v.name) (remove_interface k br)
          (λ v t known.
            Forgets-Goes br.name (λ v. v.name) (remove_interface k br v) v t
              (remove_interface-Forgets k br v t) known)
          vs s h in
      (
        g.after,
        rw (difference-nil vs, g.runs, nothing_to_add vs (add_interface k br) g.after) refl,
        record { known = g.inv; stays = g.stays },
        all,
      )

  pub vlans_forgotten :
      (vs : List EgressVlanInterface) (s : State W)
      → Known br.name s
      → (t : State W) × (egress_vlan_interface_reconcile k br vs [] s ≡ returned none t)
        × Left br.name s t
        × All (λ v. Harmless br.name (generate_egress_vlan_interface_name v) t) vs
  unfolding egress_vlan_interface_reconcile pure ◌>>=◌
  vlans_forgotten vs s h =
      let (g, all) =
        for_each-Goes (Known br.name) (Harmless br.name) generate_egress_vlan_interface_name
          (remove_vlan_interface k br)
          (λ v t known.
            Forgets-Goes br.name generate_egress_vlan_interface_name (remove_vlan_interface k br v)
              v t (remove_vlan_interface-Forgets k br v t) known)
          vs s h in
      (
        g.after,
        rw (difference-nil vs, g.runs, nothing_to_add vs (add_vlan_interface k br) g.after) refl,
        record { known = g.inv; stays = g.stays },
        all,
      )

module _ {W : Type 0} where
  pub names-Harmless :
      (b n : String) (vs : List EgressInterface) (t : State W)
      → All (λ v. Harmless b v.name t) vs
      → mentions n vs ≡ true
      → Harmless b n t
  names-Harmless b n [] t h m = absurd (ground (arith, m))
  names-Harmless b n (v ∷ vs) t h m = elim (Bool-cases (v.name == n)) [
    | inl same ↦ subst (λ x. Harmless b x t) ((eq_iff v.name n).0 same) h.0
    | inr other ↦ names-Harmless b n vs t h.1 (rw other at m)
  ]

  pub vlan_names-Harmless :
      (b n : String) (vs : List EgressVlanInterface) (t : State W)
      → All (λ v. Harmless b (generate_egress_vlan_interface_name v) t) vs
      → names_vlan n vs ≡ true
      → Harmless b n t
  vlan_names-Harmless b n [] t h m = absurd (ground (arith, m))
  vlan_names-Harmless b n (v ∷ vs) t h m =
      elim (Bool-cases (generate_egress_vlan_interface_name v == n)) [
        | inl same ↦
            subst (λ x. Harmless b x t) ((eq_iff (generate_egress_vlan_interface_name v) n).0 same)
              h.0
        | inr other ↦ vlan_names-Harmless b n vs t h.1 (rw other at m)
      ]
