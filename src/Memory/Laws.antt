-- ===== src/Memory/Laws.antt =====
-- What a copied slice holds, and what it leaves as it was.
use mathlib.Core.List.{append_assoc}
use mathlib.Core.Path.{subst}
use bridge_operator.Prelude.{
  List, Option, [], ap, arith, length, none, refl, some, suc, sym, zero, ℕ, ◌++◌, ◌+◌, ◌∙◌, ◌∷◌,
  ◌≡◌, ◌≤◌,
}
use bridge_operator.Memory.{
  IsIn, Slice, cells, contents, copy_slice, copy_to, make, write, write_at, zeros,
}

module _ {A : Type 0} where
  pub write-length :
      (v z : A) (front m : List A)
      → write (length front) v (front ++ z ∷ m) ≡ (front ++ v ∷ []) ++ m
  unfolding write
  write-length v z [] m = refl
  write-length v z (c ∷ front) m = ap (λ x. c ∷ x) (write-length v z front m)

  pub length-snoc : (v : A) (front : List A) → length (front ++ v ∷ []) ≡ suc (length front)
  length-snoc v [] = refl
  length-snoc v (c ∷ front) = ap suc (length-snoc v front)

  copy_to-zeros :
      (z : A) (vs front : List A)
      → copy_to (length front) vs (front ++ zeros z (length vs)) ≡ front ++ vs
  unfolding copy_to
  copy_to-zeros z [] front = refl
  copy_to-zeros z (v ∷ vs) front =
      rw (write-length v z front (zeros z (length vs)), sym (length-snoc v front))
        (copy_to-zeros z vs (front ++ v ∷ []) ∙ append_assoc front (v ∷ []) vs)

  pub cells-append :
      (k n : ℕ) (m vs : List A) → (k + n ≤ length m) → cells k n (m ++ vs) ≡ cells k n m
  unfolding cells
  cells-append zero zero m vs h = refl
  cells-append zero (suc n) [] vs h = absurd (ground (arith, h))
  cells-append zero (suc n) (c ∷ m) vs h =
      ap (λ x. c ∷ x) (cells-append zero n m vs (ground (arith, h)))
  cells-append (suc k) n [] vs h = absurd (ground (arith, h))
  cells-append (suc k) n (c ∷ m) vs h = cells-append k n m vs (ground (arith, h))

  pub length-cells : (k n : ℕ) (m : List A) → (k + n ≤ length m) → length (cells k n m) ≡ n
  unfolding cells
  length-cells zero zero m h = refl
  length-cells zero (suc n) [] h = absurd (ground (arith, h))
  length-cells zero (suc n) (c ∷ m) h = ap suc (length-cells zero n m (ground (arith, h)))
  length-cells (suc k) n [] h = absurd (ground (arith, h))
  length-cells (suc k) n (c ∷ m) h = length-cells k n m (ground (arith, h))

  pub cells-end : (m vs : List A) → cells (length m) (length vs) (m ++ vs) ≡ vs
  unfolding cells
  cells-end [] [] = refl
  cells-end [] (v ∷ vs) = ap (λ x. v ∷ x) (cells-end [] vs)
  cells-end (c ∷ m) vs = cells-end m vs

  pub cells-write :
      (k n j : ℕ) (v : A) (m : List A) → (k + n ≤ j) → cells k n (write j v m) ≡ cells k n m
  unfolding cells write
  cells-write k n j v [] h = refl
  cells-write zero zero j v (c ∷ m) h = refl
  cells-write zero (suc n) zero v (c ∷ m) h = absurd (ground (arith, h))
  cells-write zero (suc n) (suc j) v (c ∷ m) h =
      ap (λ x. c ∷ x) (cells-write zero n j v m (ground (arith, h)))
  cells-write (suc k) n zero v (c ∷ m) h = absurd (ground (arith, h))
  cells-write (suc k) n (suc j) v (c ∷ m) h = cells-write k n j v m (ground (arith, h))

  length-write : (j : ℕ) (v : A) (m : List A) → length (write j v m) ≡ length m
  unfolding write
  length-write j v [] = refl
  length-write zero v (c ∷ m) = refl
  length-write (suc j) v (c ∷ m) = ap suc (length-write j v m)

  pub length-append : (m n : List A) → length (m ++ n) ≡ length m + length n
  length-append [] n = ground arith
  length-append (c ∷ m) n = ground (arith, length-append m n)

  -- What a copy is: a slice of its own at the end of the memory.
  pub copy_slice-some :
      (z : A) (s : Slice) (m : List A)
      → IsIn m (some s)
      → copy_slice z (some s) m
        ≡ (some (record { start = length m; size = s.size }), m ++ cells s.start s.size m)
  unfolding copy_slice make
  copy_slice-some z s m h = rw (cells-append s.start s.size m (zeros z s.size) h) (
      ap (λ x. (some (record { start = length m; size = s.size }), x))
        (subst
          (λ n.
            copy_to (length m) (cells s.start s.size m) (m ++ zeros z n)
            ≡ m ++ cells s.start s.size m)
          (length-cells s.start s.size m h) (copy_to-zeros z (cells s.start s.size m) m)))

  pub copy_slice-none : (z : A) (m : List A) → copy_slice z none m ≡ (none, m)
  unfolding copy_slice
  copy_slice-none z m = refl

  -- A copied slice holds what the slice holds.
  pub contents-copy_slice :
      (z : A) (s : Option Slice) (m : List A)
      → IsIn m s
      → contents (copy_slice z s m).1 (copy_slice z s m).0 ≡ contents m s
  contents-copy_slice z none m h = rw (copy_slice-none z m) refl
  contents-copy_slice z (some s) m h = rw (copy_slice-some z s m h) (
      ap some (
        subst (λ n. cells (length m) n (m ++ cells s.start s.size m) ≡ cells s.start s.size m)
          (length-cells s.start s.size m h) (cells-end m (cells s.start s.size m))))

  -- The slices that were there hold what they held, also once the copy is written to.
  pub contents-write_at :
      (z : A) (s t : Option Slice) (i : ℕ) (v : A) (m : List A)
      → IsIn m s
      → IsIn m t
      → contents (write_at (copy_slice z s m).0 i v (copy_slice z s m).1) t ≡ contents m t
  unfolding write_at
  contents-write_at z s none i v m h k = refl
  contents-write_at z none (some t) i v m h k = rw (copy_slice-none z m) refl
  contents-write_at z (some s) (some t) i v m h k = rw (copy_slice-some z s m h) (
      ap some (
        cells-write t.start t.size (length m + i) v (m ++ cells s.start s.size m)
          (ground (arith, k))
        ∙ cells-append t.start t.size m (cells s.start s.size m) k))

  pub contents-copy_slice_other :
      (z : A) (s t : Option Slice) (m : List A)
      → IsIn m s
      → IsIn m t
      → contents (copy_slice z s m).1 t ≡ contents m t
  contents-copy_slice_other z s none m h k = refl
  contents-copy_slice_other z none (some t) m h k = rw (copy_slice-none z m) refl
  contents-copy_slice_other z (some s) (some t) m h k =
      rw (copy_slice-some z s m h)
        (ap some (cells-append t.start t.size m (cells s.start s.size m) k))

  pub copy_slice-IsIn :
      (z : A) (s t : Option Slice) (m : List A) → IsIn m s → IsIn m t → IsIn (copy_slice z s m).1 t
  copy_slice-IsIn z s none m h k = tt
  copy_slice-IsIn z none (some t) m h k = rw (copy_slice-none z m) k
  copy_slice-IsIn z (some s) (some t) m h k =
      rw (copy_slice-some z s m h) (ground (arith, k, length-append m (cells s.start s.size m)))

  pub copy_slice-IsIn_self :
      (z : A) (s : Option Slice) (m : List A)
      → IsIn m s
      → IsIn (copy_slice z s m).1 (copy_slice z s m).0
  copy_slice-IsIn_self z none m h = rw (copy_slice-none z m) tt
  copy_slice-IsIn_self z (some s) m h =
      rw (copy_slice-some z s m h)
        (ground (arith, length-append m (cells s.start s.size m), length-cells s.start s.size m h))
