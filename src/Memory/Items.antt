-- ===== src/Memory/Items.antt =====
-- Copying a slice of structs that hold references themselves, one after the other.
pub mod Laws
pub mod Behind
use bridge_operator.Prelude.{List, Option, [], none, some, suc, zero, ℕ, ◌∷◌}
use bridge_operator.Memory.{Slice, make, write}

module _ {A : Type 0} where
  -- `s[i]`, for a cell.
  abbrev pub get_elem? : List A → ℕ → Option A
  get_elem? [] i = none
  get_elem? (c ∷ m) zero = some c
  get_elem? (c ∷ m) (suc i) = get_elem? m i

-- The cells of structs stand beside the memory `H` that the structs refer to.
module _ {X H : Type 0} (into : X → H → X × H) where
  -- `(*in)[i].DeepCopyInto(&(*out)[i])`; a cell outside the memory would panic, and is left out.
  unfoldable pub copy_one : ℕ → ℕ → H × List X → H × List X
  copy_one src dst (h, m) = elim (get_elem? m src) [
    | none ↦ (h, m)
    | some x ↦ let (y, h1) = into x h in (h1, write dst y m)
  ]

  -- `for i := range *in`
  unfoldable pub copy_each : ℕ → ℕ → ℕ → H × List X → H × List X
  unfolding copy_one
  copy_each zero src dst hm = hm
  copy_each (suc n) src dst hm = copy_each n (suc src) (suc dst) (copy_one src dst hm)

  -- `if in != nil { *out = make([]T, len(*in)); for i := range *in { ... } }`
  unfoldable pub copy_items : X → Option Slice → H × List X → Option Slice × H × List X
  copy_items z none (h, m) = (none, h, m)
  copy_items z (some s) (h, m) =
      let (out, m1) = make z s.size m in
      let (h2, m2) = copy_each s.size s.start out.start (h, m1) in (some out, h2, m2)
