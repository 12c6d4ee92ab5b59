-- ===== src/Memory.antt =====
-- Go's slices over a memory of cells, as `make`, `copy` and indexing use them.
pub mod Laws
pub mod Items
use bridge_operator.Prelude.{
  List, Option, [], length, none, some, suc, zero, ℕ, ◌++◌, ◌+◌, ◌∷◌, ◌≤◌,
}

pub record Slice : Type 0 where
  pub start : ℕ
  pub size : ℕ

module _ {A : Type 0} where
  -- The first cells of a memory, and the cells from a place on.
  abbrev pub prefix : ℕ → List A → List A
  prefix zero m = []
  prefix (suc n) [] = []
  prefix (suc n) (c ∷ m) = c ∷ prefix n m

  unfoldable pub cells : ℕ → ℕ → List A → List A
  cells zero n m = prefix n m
  cells (suc k) n [] = []
  cells (suc k) n (c ∷ m) = cells k n m

  abbrev pub zeros : A → ℕ → List A
  zeros z zero = []
  zeros z (suc n) = z ∷ zeros z n

  -- `s[i] = v`, for a cell; a write outside the memory has no effect.
  unfoldable pub write : ℕ → A → List A → List A
  write k v [] = []
  write zero v (c ∷ m) = v ∷ m
  write (suc k) v (c ∷ m) = c ∷ write k v m

  -- The values that a slice holds; a nil slice is `none`.
  abbrev pub contents : List A → Option Slice → Option (List A)
  contents m none = none
  contents m (some s) = some (cells s.start s.size m)

  -- `make`, of zero values, at the end of the memory.
  unfoldable pub make : A → ℕ → List A → Slice × List A
  make z n m = (record { start = length m; size = n }, m ++ zeros z n)

  -- `copy`, of values into the cells from a place on.
  unfoldable pub copy_to : ℕ → List A → List A → List A
  copy_to k [] m = m
  copy_to k (v ∷ vs) m = copy_to (suc k) vs (write k v m)

  -- `if in != nil { *out = make([]T, len(*in)); copy(*out, *in) }`
  unfoldable pub copy_slice : A → Option Slice → List A → Option Slice × List A
  copy_slice z none m = (none, m)
  copy_slice z (some s) m =
      let (out, m1) = make z s.size m in (some out, copy_to out.start (cells s.start s.size m1) m1)

  -- The slice lies in the memory.
  abbrev pub IsIn : List A → Option Slice → Type 0
  IsIn m none = Unit {0}
  IsIn m (some s) = s.start + s.size ≤ length m

  -- `s[i] = v`
  unfoldable pub write_at : Option Slice → ℕ → A → List A → List A
  write_at none i v m = m
  write_at (some s) i v m = write (s.start + i) v m
