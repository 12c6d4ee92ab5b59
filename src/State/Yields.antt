-- ===== src/State/Yields.antt =====
-- What holds of the result and the state of an action that returns; nothing is said of a panic.
use mathlib.Core.Path.{subst}
use bridge_operator.Prelude.{All, List, [], ◌∷◌, ◌≡◌}
use bridge_operator.State.{
  M, Outcome, State, continue, final, for_each, panicked, pure, returned, ◌>>=◌,
}
use bridge_operator.State.Keeps.{Keeps}

abbrev pub Yields : {W A : Type 0} → (A → State W → Type 0) → Outcome W A → Type 0
Yields Q (returned a s) = Q a s
Yields Q (panicked s) = Unit

module _ {W A B : Type 0} where
  continue-Yields :
      (Q : B → State W → Type 0) (o : Outcome W A) (f : A → M W B)
      → Yields (λ a t. Yields Q (f a t)) o
      → Yields Q (continue o f)
  continue-Yields Q (returned a s) f h = h
  continue-Yields Q (panicked s) f h = tt

  pub Yields-bind :
      (Q : B → State W → Type 0) (m : M W A) (f : A → M W B) (s : State W)
      → Yields (λ a t. Yields Q (f a t)) (m s)
      → Yields Q ((m >>= f) s)
  unfolding ◌>>=◌
  Yields-bind Q m f s h = continue-Yields Q (m s) f h

module _ {W A : Type 0} where
  pub Yields-mono :
      (P Q : A → State W → Type 0) (o : Outcome W A)
      → ((a : A) (t : State W) → P a t → Q a t)
      → Yields P o
      → Yields Q o
  Yields-mono P Q (returned a s) h p = h a s p
  Yields-mono P Q (panicked s) h p = tt

  Yields-final : (P : State W → Type 0) (o : Outcome W A) → P (final o) → Yields (λ _ t. P t) o
  Yields-final P (returned a s) h = h
  Yields-final P (panicked s) h = tt

  pub Keeps-Yields :
      (P : State W → Type 0) (m : M W A)
      → Keeps P m
      → (s : State W) → P s
      → Yields (λ _ t. P t) (m s)
  Keeps-Yields P m km s h = Yields-final P (m s) (km.at s h)

  -- The way back to an equation.
  pub Yields-elim :
      (Q : A → State W → Type 0) (o : Outcome W A) (a : A) (t : State W)
      → Yields Q o
      → o ≡ returned a t
      → Q a t
  Yields-elim Q o a t h e = subst (Yields Q) e h

-- `Inv` goes on to hold, and what is done stays done.
pub record Went {W A : Type 0} (Inv : State W → Type 0) (Done : A → State W → Type 0)
    (s t : State W) : Type 0 where
  pub inv : Inv t
  pub stays : (y : A) → Done y s → Done y t

module _ {W A : Type 0} (Inv : State W → Type 0) (Done : A → State W → Type 0)
    (body : A → M W (Unit {0})) where
  -- A loop whose body establishes `Done x` establishes it for every element.
  pub Yields-for_each :
      ((x : A) (s : State W) → Inv s → Yields (λ _ t. Went Inv Done s t × Done x t) (body x s))
      → (xs : List A) (s : State W) → Inv s
      → Yields (λ _ t. Went Inv Done s t × All (λ x. Done x t) xs) (for_each xs body s)
  unfolding for_each pure
  Yields-for_each step [] s h = (record { inv = h; stays = λ y d. d }, tt)
  Yields-for_each step (x ∷ xs) s h = Yields-bind _ (body x) _ s (
      Yields-mono _ _ (body x s)
        (λ _ t one.
          Yields-mono _ _ (for_each xs body t)
            (λ _ u rest. (
              record { inv = rest.0.inv; stays = λ y d. rest.0.stays y (one.0.stays y d) },
              (rest.0.stays x one.1, rest.1),
            ))
            (Yields-for_each step xs t one.0.inv))
        (step x s h))
