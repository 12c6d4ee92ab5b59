-- ===== src/State/Gives.antt =====
-- Invariants of actions, with what holds of their results.
use bridge_operator.Prelude.{Bool, false, if◌then◌else◌, true}
use bridge_operator.State.{
  M, Outcome, State, continue, final, gets, panicked, pure, returned, ◌>>=◌,
}
use bridge_operator.State.Keeps.{Keeps}

abbrev pub Given : {W A : Type 0} → (State W → Type 0) → (A → Type 0) → Outcome W A → Type 0
Given P Q (returned a s) = P s × Q a
Given P Q (panicked s) = P s

-- `m` keeps `P`, whether it returns or panics, and `Q` holds of what it returns.
pub record Gives {W A : Type 0} (P : State W → Type 0) (Q : A → Type 0) (m : M W A) : Type 0 where
  pub at : (s : State W) → P s → Given P Q (m s)

module _ {W A : Type 0} {P : State W → Type 0} {Q : A → Type 0} where
  pub Gives-pure : (a : A) → Q a → Gives P Q (pure a)
  unfolding pure
  Gives-pure a q = record { at = λ s h. (h, q) }

  pub Gives-gets : (f : State W → A) → ((s : State W) → Q (f s)) → Gives P Q (gets f)
  unfolding gets
  Gives-gets f q = record { at = λ s h. (h, q s) }

  pub Gives-if :
      (b : Bool) (m n : M W A) → Gives P Q m → Gives P Q n → Gives P Q (if b then m else n)
  Gives-if true m n gm gn = gm
  Gives-if false m n gm gn = gn

Given-any :
    {W A : Type 0} (P : State W → Type 0) (o : Outcome W A)
    → P (final o)
    → Given P (λ _. Unit {0}) o
Given-any P (returned a s) h = (h, tt)
Given-any P (panicked s) h = h

module _ {W A : Type 0} {P : State W → Type 0} where
  pub Keeps-Gives : {m : M W A} → Keeps P m → Gives P (λ _. Unit {0}) m
  Keeps-Gives {m} km = record { at = λ s h. Given-any P (m s) (km.at s h) }

module _ {W A B : Type 0} {P : State W → Type 0} {Q : A → Type 0} where
  continue-Given :
      {R : B → Type 0} (o : Outcome W A) (f : A → M W B)
      → Given P Q o
      → ((a : A) → Q a → Gives P R (f a))
      → Given P R (continue o f)
  continue-Given (returned a s) f g next = (next a g.1).at s g.0
  continue-Given (panicked s) f g next = g

  pub Gives-bind :
      {R : B → Type 0} (m : M W A) (f : A → M W B)
      → Gives P Q m
      → ((a : A) → Q a → Gives P R (f a))
      → Gives P R (m >>= f)
  unfolding ◌>>=◌
  Gives-bind m f gm next = record { at = λ s h. continue-Given (m s) f (gm.at s h) next }

  continue-final :
      (o : Outcome W A) (f : A → M W B)
      → Given P Q o
      → ((a : A) → Q a → Keeps P (f a))
      → P (final (continue o f))
  continue-final (returned a s) f g next = (next a g.1).at s g.0
  continue-final (panicked s) f g next = g

  pub Keeps-after :
      (m : M W A) (f : A → M W B)
      → Gives P Q m
      → ((a : A) → Q a → Keeps P (f a))
      → Keeps P (m >>= f)
  unfolding ◌>>=◌
  Keeps-after m f gm next = record { at = λ s h. continue-final (m s) f (gm.at s h) next }
