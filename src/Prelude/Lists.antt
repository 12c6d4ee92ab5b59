-- ===== src/Prelude/Lists.antt =====
-- Predicates and tests on lists, by recursion.
use Prim.Native.Nat.{ℕ, suc}
use mathlib.Core.Path.{◌≡◌, refl}
use mathlib.Core.Bool.{Bool, true, false, ◌||◌}
use mathlib.Core.List.{List, [], ◌∷◌, ◌++◌, map}
use native.Mathlib.Omega.{arith}
use mathlib.Core.Logic.{inl, inr}
use bridge_operator.Prelude.Tests.{Bool-cases, Eq, ◌==◌, if◌then◌else◌}

abbrev pub All {ℓ κ} : {A : Type ℓ} → (A → Type κ) → List A → Type κ
All P [] = Unit
All P (x ∷ xs) = P x × All P xs

pub All-append {ℓ κ} :
    {A : Type ℓ} (P : A → Type κ) (xs ys : List A) → All P xs → All P ys → All P (xs ++ ys)
All-append P [] ys hx hy = hy
All-append P (x ∷ xs) ys hx hy = (hx.0, All-append P xs ys hx.1 hy)

module _ {ℓ} {A : Type ℓ} ⦃e : Eq A⦄ where
  -- A loop `for _, y := range xs { if x == y { found = true } }`.
  unfoldable pub contains : A → List A → Bool
  contains a [] = false
  contains a (x ∷ xs) = a == x || contains a xs

module _ {ℓ} {A : Type ℓ} where
  -- The elements that pass the test, in order.
  unfoldable pub keep : (A → Bool) → List A → List A
  keep p [] = []
  keep p (x ∷ xs) = let rest = keep p xs in if p x then x ∷ rest else rest

  pub keep-none : (p : A → Bool) (xs : List A) → All (λ x. p x ≡ false) xs → keep p xs ≡ []
  unfolding keep
  keep-none p [] h = refl
  keep-none p (x ∷ xs) h = ground (arith, keep-none p xs h.1)

  pub All-keep {κ} : (P : A → Type κ) (p : A → Bool) (xs : List A) → All P xs → All P (keep p xs)
  unfolding keep
  All-keep P p [] h = tt
  All-keep P p (x ∷ xs) h = elim (Bool-cases (p x)) [
    | inl e ↦ rw e (h.0, All-keep P p xs h.1)
    | inr e ↦ rw e (All-keep P p xs h.1)
  ]

  pub All-map {κ μ} :
      (P : A → Type κ) (Q : A → Type μ) (xs : List A) → ((a : A) → P a → Q a) → All P xs → All Q xs
  All-map P Q [] f h = tt
  All-map P Q (x ∷ xs) f h = (f x h.0, All-map P Q xs f h.1)

  abbrev pub length : List A → ℕ
  length [] = 0
  length (x ∷ xs) = suc (length xs)

  -- `x` stands in the list.
  pub data Elem (x : A) : List A → Type ℓ where
    here : {xs : List A} → Elem x (x ∷ xs)
    there : {y : A} {xs : List A} → Elem x xs → Elem x (y ∷ xs)

  pub Elem-append_right : {x : A} (xs : List A) {ys : List A} → Elem x ys → Elem x (xs ++ ys)
  Elem-append_right [] h = h
  Elem-append_right (y ∷ xs) h = there (Elem-append_right xs h)

  pub Elem-append_left : {x : A} {xs : List A} (ys : List A) → Elem x xs → Elem x (xs ++ ys)
  Elem-append_left ys here = here
  Elem-append_left ys (there h) = there (Elem-append_left ys h)

  pub Elem-keep : {x : A} (p : A → Bool) {xs : List A} → Elem x xs → p x ≡ true → Elem x (keep p xs)
  unfolding keep
  Elem-keep {x} p here h = rw h here
  Elem-keep {x} p (there {y} {xs} m) h = elim (Bool-cases (p y)) [
    | inl e ↦ rw e (there (Elem-keep p m h))
    | inr e ↦ rw e (Elem-keep p m h)
  ]

pub Elem-map {ℓ κ} :
    {A : Type ℓ} {B : Type κ} (f : A → B) {x : A} {xs : List A} → Elem x xs → Elem (f x) (map f xs)
Elem-map f here = here
Elem-map f (there m) = there (Elem-map f m)

pub All-Elem {ℓ κ} :
    {A : Type ℓ} (P : A → Type κ) {x : A} (xs : List A) → All P xs → Elem x xs → P x
All-Elem P [] h m = elim m [ ]
All-Elem P (y ∷ xs) h here = h.0
All-Elem P (y ∷ xs) h (there m) = All-Elem P xs h.1 m
