-- ===== src/Memory/Items/Laws.antt =====
-- What the copied items stand for.
use mathlib.Core.List.{append_assoc}
use mathlib.Core.Path.{subst}
use bridge_operator.Prelude.{
  All, List, Option, [], ap, arith, length, map, none, refl, some, suc, zero, ℕ, ◌++◌, ◌+◌, ◌∙◌,
  ◌∷◌, ◌≡◌, ◌≤◌,
}
use bridge_operator.Memory.{IsIn, Slice, cells, contents, make, write_at, zeros}
use bridge_operator.Memory.Items.{copy_each, copy_items, copy_one, get_elem?}
use bridge_operator.Memory.Laws.{
  cells-append, cells-end, cells-write, length-cells, length-snoc, write-length,
}

-- A copy of one struct stands for what the struct stands for, and is in the memory; what was in the
-- memory stays there, and stands for what it stood for.
pub record Copies {X H V : Type 0} (into : X → H → X × H) (In : H → X → Type 0) (read : H → X → V)
    : Type 0 where
  pub copied : (x : X) (h : H) → In h x → read (into x h).1 (into x h).0 ≡ read h x
  pub copy_in : (x : X) (h : H) → In h x → In (into x h).1 (into x h).0
  pub kept : (x y : X) (h : H) → In h x → In h y → read (into x h).1 y ≡ read h y
  pub stays_in : (x y : X) (h : H) → In h x → In h y → In (into x h).1 y

module _ {X H : Type 0} (into : X → H → X × H) where
  -- The copies of a list, one after the other.
  abbrev pub copies : List X → H → List X × H
  copies [] h = ([], h)
  copies (x ∷ xs) h = let (y, h1) = into x h in let (ys, h2) = copies xs h1 in (y ∷ ys, h2)

module _ {X : Type 0} where
  cells-suc :
      (k n : ℕ) (m : List X)
      → k + suc n ≤ length m
      → (x : X) × (get_elem? m k ≡ some x) × (cells k (suc n) m ≡ x ∷ cells (suc k) n m)
  unfolding cells
  cells-suc k n [] h = absurd (ground (arith, h))
  cells-suc zero n (c ∷ m) h = (c, refl, refl)
  cells-suc (suc k) n (c ∷ m) h = cells-suc k n m (ground (arith, h))

  get_elem?-append :
      (k : ℕ) (m vs : List X) (x : X) → get_elem? m k ≡ some x → get_elem? (m ++ vs) k ≡ some x
  get_elem?-append k [] vs x h = cc
  get_elem?-append zero (c ∷ m) vs x h = h
  get_elem?-append (suc k) (c ∷ m) vs x h = get_elem?-append k m vs x h

module _ {X : Type 0} where
  cells-zero : (k : ℕ) (m : List X) → cells k 0 m ≡ []
  unfolding cells
  cells-zero zero m = refl
  cells-zero (suc k) [] = refl
  cells-zero (suc k) (c ∷ m) = cells-zero k m

module _ {X H : Type 0} (into : X → H → X × H) (z : X) where
  copy_one-copies :
      (k : ℕ) (x : X) (front zs : List X) (h : H)
      → get_elem? front k ≡ some x
      → copy_one into k (length front) (h, front ++ z ∷ zs)
        ≡ ((into x h).1, (front ++ (into x h).0 ∷ []) ++ zs)
  unfolding copy_one
  copy_one-copies k x front zs h found =
      rw (copy_one, get_elem?-append k front (z ∷ zs) x found)
        (ap (λ m. ((into x h).1, m)) (write-length (into x h).0 z front zs))

  -- The loop writes the copies behind the memory.
  pub copy_each-copies :
      (n k : ℕ) (front : List X) (h : H)
      → k + n ≤ length front
      → copy_each into n k (length front) (h, front ++ zeros z n)
        ≡ ((copies into (cells k n front) h).1, front ++ (copies into (cells k n front) h).0)
  unfolding copy_each
  copy_each-copies zero k front h le = rw (cells-zero k front) refl
  copy_each-copies (suc n) k front h le =
      let (x, found, split) = cells-suc k n front le in
      let y = (into x h).0 in
      let h1 = (into x h).1 in
      let all = copies into (cells (suc k) n front) h1 in
      let rest =
        copy_each-copies n (suc k) (front ++ y ∷ []) h1 (ground (arith, le, length-snoc y front)) in
      let same = cells-append (suc k) n front (y ∷ []) (ground (arith, le)) in
      rw split (
        ap (copy_each into n (suc k) (suc (length front)))
          (copy_one-copies k x front (zeros z n) h found)
        ∙ subst
            (λ l.
              copy_each into n (suc k) l (h1, (front ++ y ∷ []) ++ zeros z n)
              ≡ (all.1, front ++ y ∷ all.0))
            (length-snoc y front)
            (rest
              ∙ ap (λ cs. ((copies into cs h1).1, (front ++ y ∷ []) ++ (copies into cs h1).0)) same
              ∙ ap (λ m. (all.1, m)) (append_assoc front (y ∷ []) all.0)))

  length-copies : (xs : List X) (h : H) → length (copies into xs h).0 ≡ length xs
  length-copies [] h = refl
  length-copies (x ∷ xs) h = ap suc (length-copies xs (into x h).1)

  -- The copies are the cells behind the memory.
  pub cells-copies :
      (s : Slice) (h : H) (m : List X)
      → IsIn m (some s)
      → let ys = (copies into (cells s.start s.size m) h).0 in
        cells (length m) s.size (m ++ ys) ≡ ys
  cells-copies s h m is_in =
      let ys = (copies into (cells s.start s.size m) h).0 in
      subst (λ n. cells (length m) n (m ++ ys) ≡ ys)
        (length-copies (cells s.start s.size m) h ∙ length-cells s.start s.size m is_in)
        (cells-end m ys)

-- The items of a slice, and what they stand for.
abbrev pub items : {X : Type 0} → List X → Option Slice → List X
items m none = []
items m (some s) = cells s.start s.size m

abbrev pub map_items {ℓ κ} : {X : Type ℓ} {V : Type κ} → (X → V) → Option (List X) → Option (List V)
map_items f none = none
map_items f (some xs) = some (map f xs)

contents-write_behind :
    {X : Type 0} (u : Option Slice) (n i : ℕ) (v : X) (m vs : List X)
    → IsIn m u
    → contents (write_at (some (record { start = length m; size = n })) i v (m ++ vs)) u
      ≡ contents m u
unfolding write_at
contents-write_behind none n i v m vs h = refl
contents-write_behind (some u) n i v m vs h = ap some (
    cells-write u.start u.size (length m + i) v (m ++ vs) (ground (arith, h))
    ∙ cells-append u.start u.size m vs h)

module _ {X H V : Type 0} {into : X → H → X × H} {In : H → X → Type 0} {read : H → X → V}
    (laws : Copies into In read) where
  open laws use {copied, copy_in, kept, stays_in}

  All-stays_in : (x : X) (xs : List X) (h : H) → In h x → All (In h) xs → All (In (into x h).1) xs
  All-stays_in x [] h at_x all = tt
  All-stays_in x (y ∷ ys) h at_x all = (stays_in x y h at_x all.0, All-stays_in x ys h at_x all.1)

  map-kept :
      (x : X) (xs : List X) (h : H)
      → In h x
      → All (In h) xs
      → map (read (into x h).1) xs ≡ map (read h) xs
  map-kept x [] h at_x all = refl
  map-kept x (y ∷ ys) h at_x all = rw (kept x y h at_x all.0, map-kept x ys h at_x all.1) refl

  pub copies-keep :
      (xs : List X) (y : X) (h : H)
      → All (In h) xs
      → In h y
      → (read (copies into xs h).1 y ≡ read h y) × In (copies into xs h).1 y
  copies-keep [] y h all at_y = (refl, at_y)
  copies-keep (x ∷ xs) y h all at_y =
      let h1 = (into x h).1 in
      let (same, still) =
        copies-keep xs y h1 (All-stays_in x xs h all.0 all.1) (stays_in x y h all.0 at_y) in
      (same ∙ kept x y h all.0 at_y, still)

  pub map-copies :
      (xs : List X) (h : H)
      → All (In h) xs
      → map (read (copies into xs h).1) (copies into xs h).0 ≡ map (read h) xs
  map-copies [] h all = refl
  map-copies (x ∷ xs) h all =
      let others = All-stays_in x xs h all.0 all.1 in
      let first =
        (copies-keep xs (into x h).0 (into x h).1 others (copy_in x h all.0)).0
        ∙ copied x h all.0 in
      let rest = map-copies xs (into x h).1 others ∙ map-kept x xs h all.0 all.1 in
      rw (first, rest) refl

  -- A copied slice of items stands for what the slice stands for; what was in the memory stands for
  -- what it stood for; and a slice that was there holds what it held, also once an item of the copy
  -- is overwritten.
  pub copy_items-copies :
      (z : X) (s : Option Slice) (h : H) (m : List X)
      → IsIn m s
      → All (In h) (items m s)
      → let (t, h1, m1) = copy_items into z s (h, m) in
        (map_items (read h1) (contents m1 t) ≡ map_items (read h) (contents m s))
        × ((y : X) → In h y → read h1 y ≡ read h y)
        × ((u : Option Slice) (i : ℕ) (v : X)
            → IsIn m u
            → contents (write_at t i v m1) u ≡ contents m u)
  unfolding copy_items make write_at
  copy_items-copies z none h m is_in all = (refl, (λ y at_y. refl), (λ u i v at_u. refl))
  copy_items-copies z (some s) h m is_in all =
      let xs = cells s.start s.size m in
      rw (copy_each-copies into z s.size s.start m h is_in) (
        ap (λ ys. some (map (read (copies into xs h).1) ys)) (cells-copies into z s h m is_in)
            ∙ ap some (map-copies xs h all),
        (λ y at_y. (copies-keep xs y h all at_y).0),
        (λ u i v at_u. contents-write_behind u s.size i v m (copies into xs h).0 at_u),
      )
