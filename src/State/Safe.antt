-- ===== src/State/Safe.antt =====
-- Actions that return and keep an invariant: one rule for each way to build such an action.
-- From a state with `P`, `m` returns, in a state with `P`.
use mathlib.Core.Path.{subst}
use bridge_operator.Prelude.{
  All, Bool, List, [], false, if◌then◌else◌, refl, sym, true, ◌∙◌, ◌∷◌, ◌≡◌,
}
use bridge_operator.State.{M, State, for_each, gets, pure, returned, ◌>>=◌}

pub record Safe {W A : Type 0} (P : State W → Type 0) (m : M W A) : Type 0 where
  pub at : (s : State W) → P s → (a : A) × (t : State W) × (m s ≡ returned a t) × P t

module _ {W A : Type 0} {P : State W → Type 0} where
  pub Safe-pure : (a : A) → Safe P (pure a)
  unfolding pure
  Safe-pure a = record { at = λ s h. (a, s, refl, h) }

  pub Safe-gets : (f : State W → A) → Safe P (gets f)
  unfolding gets
  Safe-gets f = record { at = λ s h. (f s, s, refl, h) }

  pub Safe-if : (b : Bool) (m n : M W A) → Safe P m → Safe P n → Safe P (if b then m else n)
  Safe-if true m n sm sn = sm
  Safe-if false m n sm sn = sn

-- The state in which an action returned has the invariant.
pub Safe-returned :
    {W A : Type 0} {P : State W → Type 0} {m : M W A} {a : A} {s t : State W}
    → Safe P m
    → P s
    → m s ≡ returned a t
    → P t
Safe-returned {W} {A} {P} {m} {a} {s} {t} safe h e =
    let (b, u, e', g) = safe.at s h in subst P (same_state (sym e' ∙ e)) g
  where
    same_state : {b : A} {u : State W} → returned b u ≡ returned a t → u ≡ t
    same_state q = cc

module _ {W A B : Type 0} {P : State W → Type 0} where
  pub Safe-bind :
      (m : M W A) (f : A → M W B) → Safe P m → ((a : A) → Safe P (f a)) → Safe P (m >>= f)
  unfolding ◌>>=◌
  Safe-bind m f sm sf = record {
    at = λ s h.
        let (a, t, e, g) = sm.at s h in let (b, u, e', g') = (sf a).at t g in (b, u, rw e e', g');
  }

module _ {W A : Type 0} {P : State W → Type 0} where
  pub Safe-for_each :
      (xs : List A) (body : A → M W (Unit {0}))
      → ((a : A) → Safe P (body a))
      → Safe P (for_each xs body)
  unfolding for_each
  Safe-for_each [] body h = Safe-pure tt
  Safe-for_each (x ∷ xs) body h =
      Safe-bind (body x) (λ _. for_each xs body) (h x) (λ _. Safe-for_each xs body h)

-- From `s`, `m` returns in a state with the invariant, where what was done stays done.
pub record Goes {W B : Type 0} (Inv : State W → Type 0) (Done : B → State W → Type 0)
    (m : M W (Unit {0})) (s : State W) : Type 0 where
  pub after : State W
  pub runs : m s ≡ returned tt after
  pub inv : Inv after
  pub stays : (y : B) → Done y s → Done y after

module _ {W A B : Type 0} (Inv : State W → Type 0) (Done : B → State W → Type 0) (name : A → B)
    (body : A → M W (Unit {0})) where
  -- A loop whose body returns and establishes `Done` does so for every element.
  pub for_each-Goes :
      ((x : A) (s : State W) → Inv s → (g : Goes Inv Done (body x) s) × Done (name x) g.after)
      → (xs : List A) (s : State W) → Inv s
      → (g : Goes Inv Done (for_each xs body) s) × All (λ x. Done (name x) g.after) xs
  unfolding for_each pure ◌>>=◌
  for_each-Goes step [] s h = (record { after = s; runs = refl; inv = h; stays = λ y d. d }, tt)
  for_each-Goes step (x ∷ xs) s h =
      let (one, done) = step x s h in
      let (rest, all) = for_each-Goes step xs one.after one.inv in
      (
        record {
          after = rest.after;
          runs = rw one.runs rest.runs;
          inv = rest.inv;
          stays = λ y d. rest.stays y (one.stays y d);
        },
        (rest.stays (name x) done, all),
      )

pub ruleset safe_rules = (Safe-pure, Safe-gets, Safe-if, Safe-bind, Safe-for_each)
