-- ===== src/GoMap.antt =====
-- Go's `map[K]V` as an association list: a key that is written again keeps its place, and
-- `range` goes through the list. Go leaves the order of `range` open; a state of the model may
-- hold its entries in any order.
pub mod Laws
use bridge_operator.Prelude.{
  Bool, Eq, List, Option, [], false, if◌then◌else◌, int_eq, nat_eq, none, some, string_eq, true,
  ◌==◌, ◌∷◌,
}

abbrev pub GoMap {ℓ κ} : Type ℓ → Type κ → Type (ℓ ⊔ κ)
GoMap K V = List (K × V)

module _ {ℓ κ} {K : Type ℓ} {V : Type κ} ⦃e : Eq K⦄ where
  -- `v, ok := m[k]`
  unfoldable pub lookup : K → GoMap K V → Option V
  lookup k [] = none
  lookup k ((j, v) ∷ m) = if j == k then some v else lookup k m

  -- `_, ok := m[k]`
  unfoldable pub has : K → GoMap K V → Bool
  unfolding lookup
  has k m = elim (lookup k m) [ none ↦ false | some v ↦ true ]

  -- `m[k] = v`
  unfoldable pub put : K → V → GoMap K V → GoMap K V
  put k v [] = (k, v) ∷ []
  put k v ((j, w) ∷ m) = if j == k then (j, v) ∷ m else (j, w) ∷ put k v m

  -- `delete(m, k)`
  unfoldable pub remove : K → GoMap K V → GoMap K V
  remove k [] = []
  remove k ((j, w) ∷ m) = let rest = remove k m in if j == k then rest else (j, w) ∷ rest

-- `for k := range m`
unfoldable pub keys {ℓ κ} : {K : Type ℓ} {V : Type κ} → GoMap K V → List K
keys [] = []
keys ((k, v) ∷ m) = k ∷ keys m
