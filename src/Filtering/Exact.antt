-- ===== src/Filtering/Exact.antt =====
-- What a port is to carry after `bridgeVlanIDReconcile` (pkg/server/bridgeconfig.go).
use bridge_operator.Prelude.{
  Bool, List, [], ap, arith, beq_refl, false, int_eq, nat_eq, not, ok, refl, string_eq, true, ℕ,
  ◌&&◌, ◌==◌, ◌||◌, ◌∷◌, ◌≡◌,
}
use bridge_operator.Filtering.{VidSet}
use bridge_operator.Filtering.Entries.{carries, entries_of, has-missing, is_empty, lists}
use bridge_operator.Filtering.Plan.{missing}
use bridge_operator.GoMap.{has, lookup}
use bridge_operator.Netlink.{BridgeVlanInfo, Kernel}
use bridge_operator.Types.{interface_eq, vlan_interface_eq}

module _ {W : Type 0} (k : Kernel W) where
  -- What the port of the index `i` carries after, if it is to have the ids that `wants` picks: these
  -- and no others, and VLAN 1 too if it had all of them before.
  pub record Carries (i : ℕ) (wants : ℕ → Bool) (before after : W) : Type 0 where
    pub exact : (v : ℕ) → (v == 1) ≡ false → carries k i v after ≡ wants v
    pub complete :
        ((v : ℕ) → wants v ≡ true → carries k i v before ≡ true) → carries k i 1 after ≡ true
    pub incomplete :
        (v : ℕ) → wants v ≡ true → carries k i v before ≡ false → carries k i 1 after ≡ wants 1

  pub Carries-has_id :
      (i : ℕ) (info : ℕ → List BridgeVlanInfo) (vids : VidSet) (wants : ℕ → Bool) (w u : W)
      → k.bridge_vlan_list w ≡ ok info
      → ((v : ℕ) → carries k i v u ≡ (has v vids || (is_empty (missing (info i) vids) && v == 1)))
      → ((v : ℕ) → has v vids ≡ wants v)
      → Carries i wants w u
  unfolding carries has lookup
  Carries-has_id i info vids wants w u listed c same = record {
    exact = λ v h. ground (arith, c v, same v, h);
    complete = λ all.
        let none_left =
          nothing_missing (missing (info i) vids) (λ v. has-missing (info i) vids v) all in
        ground (arith, c 1, none_left);
    incomplete = λ v h g. ground (
      arith,
      some_missing (missing (info i) vids) v (has-missing (info i) vids v) h g,
      c 1,
      same 1,
    );
  }
    where
      now : (v : ℕ) → carries k i v w ≡ lists v (info i)
      now v = ap (λ r. lists v (entries_of i r)) listed

      nothing_missing :
          (m : VidSet)
          → ((v : ℕ) → has v m ≡ (has v vids && not (lists v (info i))))
          → ((v : ℕ) → wants v ≡ true → carries k i v w ≡ true)
          → is_empty m ≡ true
      nothing_missing [] h all = refl
      nothing_missing ((x, y) ∷ m) h all =
          absurd (ground (arith, h x, same x, all x, now x, beq_refl x))

      some_missing :
          (m : VidSet) (v : ℕ)
          → has v m ≡ (has v vids && not (lists v (info i)))
          → wants v ≡ true
          → carries k i v w ≡ false
          → is_empty m ≡ false
      some_missing [] v h g l = absurd (ground (arith, h, same v, now v, g, l))
      some_missing (x ∷ m) v h g l = refl
