-- ===== src/State/Keeps.antt =====
-- Invariants of actions: one rule for each way to build an action.
use bridge_operator.Prelude.{
  All, Bool, List, Option, [], false, if◌then◌else◌, none, refl, some, true, ◌∷◌, ◌≡◌,
}
use bridge_operator.State.{
  M, Outcome, State, continue, deref, final, for_each, gets, panic, panicked, pure, returned, ◌>>=◌,
}

-- `m` keeps `P`, whether it returns or panics.
pub record Keeps {W A : Type 0} (P : State W → Type 0) (m : M W A) : Type 0 where
  pub at : (s : State W) → P s → P (final (m s))

module _ {W A : Type 0} {P : State W → Type 0} where
  pub Keeps-pure : (a : A) → Keeps P (pure a)
  unfolding pure
  Keeps-pure a = record { at = λ s h. h }

  pub Keeps-panic : Keeps P (panic {A = A})
  unfolding panic
  Keeps-panic = record { at = λ s h. h }

  pub Keeps-gets : (f : State W → A) → Keeps P (gets f)
  unfolding gets
  Keeps-gets f = record { at = λ s h. h }

  pub Keeps-deref : (o : Option A) → Keeps P (deref o)
  unfolding deref
  Keeps-deref none = Keeps-panic
  Keeps-deref (some a) = Keeps-pure a

  pub Keeps-if : (b : Bool) (m n : M W A) → Keeps P m → Keeps P n → Keeps P (if b then m else n)
  Keeps-if true m n km kn = km
  Keeps-if false m n km kn = kn

module _ {W A B : Type 0} {P : State W → Type 0} where
  pub continue-Keeps :
      (o : Outcome W A) (f : A → M W B)
      → P (final o)
      → ((a : A) → Keeps P (f a))
      → P (final (continue o f))
  continue-Keeps (returned a s) f h kf = (kf a).at s h
  continue-Keeps (panicked s) f h kf = h

  pub Keeps-bind :
      (m : M W A) (f : A → M W B) → Keeps P m → ((a : A) → Keeps P (f a)) → Keeps P (m >>= f)
  unfolding ◌>>=◌
  Keeps-bind m f km kf = record { at = λ s h. continue-Keeps (m s) f (km.at s h) kf }

module _ {W A : Type 0} {P : State W → Type 0} where
  pub Keeps-for_each :
      (xs : List A) (body : A → M W (Unit {0}))
      → ((a : A) → Keeps P (body a))
      → Keeps P (for_each xs body)
  unfolding for_each
  Keeps-for_each [] body h = Keeps-pure tt
  Keeps-for_each (x ∷ xs) body h =
      Keeps-bind (body x) (λ _. for_each xs body) (h x) (λ _. Keeps-for_each xs body h)

-- A first part that keeps a stronger invariant than the rest.
module _ {W A B : Type 0} (P Q : State W → Type 0) where
  continue-weaken :
      (o : Outcome W A) (f : A → M W B)
      → ((s : State W) → P s → Q s)
      → P (final o)
      → ((a : A) → Keeps Q (f a))
      → Q (final (continue o f))
  continue-weaken (returned a s) f weaker h kf = (kf a).at s (weaker s h)
  continue-weaken (panicked s) f weaker h kf = weaker s h

  pub final-bind :
      (m : M W A) (f : A → M W B) (s : State W)
      → ((t : State W) → P t → Q t)
      → Keeps P m
      → ((a : A) → Keeps Q (f a))
      → P s
      → Q (final ((m >>= f) s))
  unfolding ◌>>=◌
  final-bind m f s weaker km kf h = continue-weaken (m s) f weaker (km.at s h) kf

-- A first part that keeps `P`, and a rest that leads from `P` to `Q`.
module _ {W A B : Type 0} (P Q : State W → Type 0) where
  pub continue_to :
      (o : Outcome W A) (f : A → M W B)
      → ((s : State W) → P s → Q s)
      → P (final o)
      → ((a : A) (t : State W) → P t → Q (final (f a t)))
      → Q (final (continue o f))
  continue_to (returned a s) f weaker h rest = rest a s h
  continue_to (panicked s) f weaker h rest = weaker s h

-- Two continuations that agree where the first part can lead.
module _ {W A B : Type 0} (P : State W → Type 0) where
  continue_cong :
      (o : Outcome W A) (f g : A → M W B)
      → P (final o)
      → ((a : A) (t : State W) → P t → f a t ≡ g a t)
      → continue o f ≡ continue o g
  continue_cong (returned a s) f g h same = same a s h
  continue_cong (panicked s) f g h same = refl

  pub bind_cong :
      (m : M W A) (f g : A → M W B) (s : State W)
      → Keeps P m
      → P s
      → ((a : A) (t : State W) → P t → f a t ≡ g a t)
      → (m >>= f) s ≡ (m >>= g) s
  unfolding ◌>>=◌
  bind_cong m f g s km h same = continue_cong (m s) f g (km.at s h) same

pub if_cong :
    {W A : Type 0} (c : Bool) (m m' n : M W A) (s : State W)
    → m s ≡ m' s
    → (if c then m else n) s ≡ (if c then m' else n) s
if_cong true m m' n s h = h
if_cong false m m' n s h = refl

module _ {W A : Type 0} {P : State W → Type 0} where
  pub Keeps-for_each-All :
      (xs : List A) (body : A → M W (Unit {0}))
      → All (λ x. Keeps P (body x)) xs
      → Keeps P (for_each xs body)
  unfolding for_each
  Keeps-for_each-All [] body h = Keeps-pure tt
  Keeps-for_each-All (x ∷ xs) body h =
      Keeps-bind (body x) (λ _. for_each xs body) h.0 (λ _. Keeps-for_each-All xs body h.1)

pub ruleset keeps_rules =
    (Keeps-pure, Keeps-panic, Keeps-gets, Keeps-deref, Keeps-if, Keeps-bind, Keeps-for_each)
