-- ===== src/Memory/Items/Behind.antt =====
-- The copies of structs refer to cells behind those that were in the memory.
use mathlib.Core.Path.{subst}
use bridge_operator.Prelude.{
  All, All-map, List, Option, [], ap, arith, length, none, refl, some, sym, ℕ, ◌+◌, ◌∷◌, ◌≡◌, ◌≤◌,
}
use bridge_operator.Memory.{IsIn, Slice, cells, contents, copy_slice, make, write_at}
use bridge_operator.Memory.Items.{copy_items}
use bridge_operator.Memory.Items.Laws.{Copies, cells-copies, copies, copy_each-copies, items}
use bridge_operator.Memory.Laws.{cells-write, copy_slice-none, copy_slice-some, length-append}

-- The slice begins behind the memory.
abbrev pub IsBehind : {A : Type 0} → List A → Option Slice → Type 0
IsBehind m none = Unit {0}
IsBehind m (some s) = length m ≤ s.start

module _ {A : Type 0} where
  pub copy_slice-IsBehind :
      (z : A) (s : Option Slice) (m : List A) → IsIn m s → IsBehind m (copy_slice z s m).0
  copy_slice-IsBehind z none m h = rw (copy_slice-none z m) tt
  copy_slice-IsBehind z (some s) m h = rw (copy_slice-some z s m h) (ground arith)

  pub length-copy_slice :
      (z : A) (s : Option Slice) (m : List A) → IsIn m s → length m ≤ length (copy_slice z s m).1
  length-copy_slice z none m h = rw (copy_slice-none z m) (ground arith)
  length-copy_slice z (some s) m h =
      rw (copy_slice-some z s m h) (ground (arith, length-append m (cells s.start s.size m)))

  -- A write through it leaves what was in the memory.
  pub contents-write_behind :
      (s t : Option Slice) (i : ℕ) (v : A) (m m1 : List A)
      → IsBehind m s
      → IsIn m t
      → contents (write_at s i v m1) t ≡ contents m1 t
  unfolding write_at
  contents-write_behind s none i v m m1 b h = refl
  contents-write_behind none (some t) i v m m1 b h = refl
  contents-write_behind (some s) (some t) i v m m1 b h =
      ap some (cells-write t.start t.size (s.start + i) v m1 (ground (arith, b, h)))

-- What a copy refers to is behind the memory, which only grows.
pub record Deep {X H : Type 0} (into : X → H → X × H) (In Behind : H → X → Type 0)
    (Grows : H → H → Type 0) : Type 0 where
  pub fresh : (x : X) (h : H) → In h x → Behind h (into x h).0
  pub grows : (x : X) (h : H) → In h x → Grows h (into x h).1
  pub earlier : (g h : H) (x : X) → Grows g h → Behind h x → Behind g x

module _ {X H V : Type 0} {into : X → H → X × H} {In Behind : H → X → Type 0}
    {Grows : H → H → Type 0} {read : H → X → V} (laws : Copies into In read)
    (deep : Deep into In Behind Grows) where
  All-still_in : (x : X) (xs : List X) (h : H) → In h x → All (In h) xs → All (In (into x h).1) xs
  All-still_in x xs h at_x all = All-map _ _ xs (λ y at_y. laws.stays_in x y h at_x at_y) all

  copies-Behind : (xs : List X) (h : H) → All (In h) xs → All (Behind h) (copies into xs h).0
  copies-Behind [] h all = tt
  copies-Behind (x ∷ xs) h all =
      let h1 = (into x h).1 in
      (
        deep.fresh x h all.0,
        All-map _ _ (copies into xs h1).0 (λ y. deep.earlier h h1 y (deep.grows x h all.0))
            (copies-Behind xs h1 (All-still_in x xs h all.0 all.1)),
      )

  -- All items of a copied slice refer to cells behind the memory.
  pub copy_items-Behind :
      (z : X) (s : Option Slice) (h : H) (m : List X)
      → IsIn m s
      → All (In h) (items m s)
      → let (t, h1, m1) = copy_items into z s (h, m) in All (Behind h) (items m1 t)
  unfolding copy_items make
  copy_items-Behind z none h m is_in all = tt
  copy_items-Behind z (some s) h m is_in all =
      rw (copy_each-copies into z s.size s.start m h is_in) (
        subst (All (Behind h)) (sym (cells-copies into z s h m is_in))
          (copies-Behind (cells s.start s.size m) h all))
