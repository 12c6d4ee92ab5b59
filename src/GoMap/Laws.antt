-- ===== src/GoMap/Laws.antt =====
-- The laws of maps, in the form that `simp` and `ground` take.
use mathlib.Core.Bool.{false≢true}
use mathlib.Core.Path.{subst}
use bridge_operator.Prelude.{
  All, Bool, Bool-cases, Elem, Eq, [], ap, arith, beq_refl, false, here, if◌then◌else◌, inl, inr,
  int_eq, nat_eq, none, not, refl, some, string_eq, sym, there, true, ◌&&◌, ◌==◌, ◌||◌, ◌∙◌, ◌∷◌,
  ◌≡◌,
}
use bridge_operator.GoMap.{GoMap, has, keys, lookup, put, remove}

module _ {ℓ κ} {K : Type ℓ} {V : Type κ} ⦃e : Eq K⦄ where
  pub lookup-put :
      (k j : K) (v : V) (m : GoMap K V)
      → lookup j (put k v m) ≡ (if k == j then some v else lookup j m)
  unfolding lookup put
  lookup-put k j v [] = refl
  lookup-put k j v ((i, w) ∷ m) =
      ground (arith, e.beq_iff k j, e.beq_iff i k, e.beq_iff i j, lookup-put k j v m)

  pub lookup-remove :
      (k j : K) (m : GoMap K V) → lookup j (remove k m) ≡ (if k == j then none else lookup j m)
  unfolding lookup remove
  lookup-remove k j [] = ground arith
  lookup-remove k j ((i, w) ∷ m) =
      ground (arith, e.beq_iff k j, e.beq_iff i k, e.beq_iff i j, lookup-remove k j m)

  pub lookup-put_absent :
      (k j : K) (v w : V) (m : GoMap K V)
      → lookup k m ≡ none
      → lookup j m ≡ some w
      → lookup j (put k v m) ≡ some w
  lookup-put_absent k j v w m absent found =
      ground (arith, lookup-put k j v m, absent, found, e.beq_iff k j)

  pub has-put : (k j : K) (v : V) (m : GoMap K V) → has j (put k v m) ≡ (k == j || has j m)
  unfolding has
  has-put k j v m = ground (arith, lookup-put k j v m)

  pub has-remove : (k j : K) (m : GoMap K V) → has j (remove k m) ≡ (not (k == j) && has j m)
  unfolding has
  has-remove k j m = ground (arith, lookup-remove k j m)

  pub has_of_lookup : (k : K) (v : V) (m : GoMap K V) → lookup k m ≡ some v → has k m ≡ true
  unfolding has
  has_of_lookup k v m h = ground arith

  -- Writing under a key that is there changes no key.
  pub has-put_of_lookup :
      (k j : K) (v w : V) (m : GoMap K V) → lookup k m ≡ some w → has j (put k v m) ≡ has j m
  unfolding has
  has-put_of_lookup k j v w m h = ground (arith, lookup-put k j v m, e.beq_iff k j)

  -- `if _, ok := m[k]; ok { delete(m, k) }`
  pub has-remove_if :
      (k j : K) (m : GoMap K V)
      → has j (if has k m then remove k m else m) ≡ (not (k == j) && has j m)
  has-remove_if k j m = ground (arith, has-remove k j m, e.beq_iff k j)

  -- The same, with the entry overwritten before and deleted once more.
  pub has-clear :
      (k j : K) (v : V) (m : GoMap K V)
      → has j (remove k (if has k m then remove k (put k v m) else m)) ≡ (not (k == j) && has j m)
  has-clear k j v m = ground (
    arith,
    has-remove k j m,
    has-remove k j (remove k (put k v m)),
    has-remove k j (put k v m),
    has-put k j v m,
    e.beq_iff k j,
  )

  pub lookup-remove_if :
      (k j : K) (m : GoMap K V)
      → lookup j (if has k m then remove k m else m) ≡ (if k == j then none else lookup j m)
  unfolding has
  lookup-remove_if k j m = ground (arith, lookup-remove k j m, e.beq_iff k j)

  pub remove_absent : (k : K) (m : GoMap K V) → has k m ≡ false → remove k m ≡ m
  unfolding has lookup remove
  remove_absent k [] h = refl
  remove_absent k ((j, v) ∷ m) h = ground (arith, remove_absent k m)

pub Elem-keys {ℓ κ} :
    {K : Type ℓ} {V : Type κ} ⦃e : Eq K⦄ (k : K) (v : V) (m : GoMap K V)
    → lookup k m ≡ some v
    → Elem k (keys m)
unfolding lookup keys
Elem-keys k v [] h = cc
Elem-keys ⦃e⦄ k v ((j, w) ∷ m) h = elim (Bool-cases (j == k)) [
  | inl same ↦ subst (λ x. Elem k (x ∷ keys m)) (sym ((e.beq_iff j k).0 same)) here
  | inr other ↦ there (Elem-keys k v m (rw other at h))
]

-- No key stands twice.
module _ {ℓ κ} {K : Type ℓ} {V : Type κ} ⦃e : Eq K⦄ where
  abbrev pub DistinctKeys : GoMap K V → Type 0
  DistinctKeys [] = Unit {0}
  DistinctKeys ((k, v) ∷ m) = (has k m ≡ false) × DistinctKeys m

  pub put-DistinctKeys : (k : K) (v : V) (m : GoMap K V) → DistinctKeys m → DistinctKeys (put k v m)
  unfolding put has lookup
  put-DistinctKeys k v [] h = (refl, tt)
  put-DistinctKeys k v ((j, w) ∷ m) h =
      ground (arith, e.beq_iff j k, e.beq_iff k j, has-put k j v m, put-DistinctKeys k v m h.1)

  pub remove-DistinctKeys : (k : K) (m : GoMap K V) → DistinctKeys m → DistinctKeys (remove k m)
  unfolding remove
  remove-DistinctKeys k [] h = tt
  remove-DistinctKeys k ((j, w) ∷ m) h =
      ground (arith, e.beq_iff j k, has-remove k j m, remove-DistinctKeys k m h.1)

  -- What holds of every entry that can be looked up holds of the whole list.
  pub lookup-All {μ} :
      (P : K × V → Type μ) (m : GoMap K V)
      → DistinctKeys m
      → ((k : K) (v : V) → lookup k m ≡ some v → P (k, v))
      → All P m
  unfolding lookup
  lookup-All P [] d h = tt
  lookup-All P ((k, v) ∷ m) d h = (
    h k v (rw (beq_refl k)),
    lookup-All P m d.1 (λ j w found. h j w (elim (Bool-cases (k == j)) [
      | inl same ↦ absurd (
          false≢true
            (sym d.0 ∙ ap (λ x. has x m) ((e.beq_iff k j).0 same) ∙ has_of_lookup j w m found))
      | inr other ↦ rw other found
    ])),
  )

  -- `m[k] = v`, and `delete(m, k)` behind it under a test.
  pub lookup-put_or_drop :
      (q : Bool) (k j : K) (v : V) (m : GoMap K V)
      → lookup j (if q then remove k (put k v m) else put k v m)
        ≡ (if k == j then (if q then none else some v) else lookup j m)
  lookup-put_or_drop q k j v m = ground (arith, lookup-remove k j (put k v m), lookup-put k j v m)

  pub put_or_drop-DistinctKeys :
      (q : Bool) (k : K) (v : V) (m : GoMap K V)
      → DistinctKeys m
      → DistinctKeys (if q then remove k (put k v m) else put k v m)
  put_or_drop-DistinctKeys true k v m h =
      remove-DistinctKeys k (put k v m) (put-DistinctKeys k v m h)
  put_or_drop-DistinctKeys false k v m h = put-DistinctKeys k v m h
