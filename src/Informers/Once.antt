-- ===== src/Informers/Once.antt =====
-- The goroutines that a factory of informers starts
-- (pkg/client/informers/externalversions/factory.go).
use text.Mathlib.TextEquality.{eq_iff}
use bridge_operator.Prelude.{
  All, Bool, Bool-cases, List, Option-cases, String, [], ap, arith, false, if◌then◌else◌, inl, inr,
  int_eq, length, nat_eq, refl, some, string_eq, true, ℤ, ◌==◌, ◌||◌, ◌↔◌, ◌∙◌, ◌∷◌, ◌≡◌,
}
use bridge_operator.GoMap.{GoMap, has, lookup}
use bridge_operator.GoMap.Laws.{DistinctKeys, lookup-All}
use bridge_operator.Informers.{
  FactoryState, NewInformerFunc, Operation, SharedInformerOption, can_return, fresh, is_started,
  new_shared_informer_factory_with_options, operate_each, shutdown, start, start_all, start_one,
}
use bridge_operator.Informers.Invariant.{
  Sound, reachable-Sound, start_one-Sound, start_one-informers,
}
use bridge_operator.Tracker.{name_eq}
use bridge_operator.Types.{interface_eq, vlan_interface_eq}

if-elim :
    {A B : Type 0}
    → (q : Bool) (f : A → B) (x y : A) → f (if q then x else y) ≡ (if q then f x else f y)
if-elim true f x y = refl
if-elim false f x y = refl

module _ {C O I W : Type 0} where
  has-start_one :
      (u t : String) (i : I) (s : FactoryState C O I W)
      → Sound s
      → has u (start_one t i s).goroutines ≡ (has u s.goroutines || t == u)
  unfolding start_one has lookup
  has-start_one u t i s inv = elim (Bool-cases (is_started s.factory t)) [
    | inl old ↦ ground (arith, old, inv.started t, eq_iff t u)
    | inr new ↦ ground (arith, new, eq_iff t u)
  ]

  has-start_all :
      (u : String) (m : GoMap String I) (s : FactoryState C O I W)
      → All (λ (t, i). lookup t s.factory.informers ≡ some i) m
      → Sound s
      → has u (start_all m s).goroutines ≡ (has u s.goroutines || has u m)
  unfolding start_all has lookup
  has-start_all u [] s h inv = ground arith
  has-start_all u ((t, i) ∷ m) s h inv =
      has-start_all u m (start_one t i s) (rw (start_one-informers t i s) h.1)
        (start_one-Sound t i s h.0 inv)
      ∙ ground (arith, has-start_one u t i s inv)

  -- A type with a goroutine has an informer.
  has_started :
      (u : String) (s : FactoryState C O I W)
      → Sound s
      → (has u s.goroutines || has u s.factory.informers) ≡ has u s.factory.informers
  unfolding has
  has_started u s inv = elim (Option-cases (lookup u s.goroutines)) [
    | inl e ↦ ground (arith, e)
    | inr (i, e) ↦ ground (arith, e, inv.from_table u i e)
  ]

module _ {C O I W : Type 0} (new_funcs : String → NewInformerFunc C I W) (client : C) (resync : ℤ)
    (options : List (SharedInformerOption O)) (w : W) (os : List Operation) where
  -- What is reached from a new factory.
  abbrev pub reached : FactoryState C O I W
  reached =
      operate_each new_funcs os
        (fresh (new_shared_informer_factory_with_options client resync options) w)

  -- However often a factory is started, asked for informers and shut down, in any order, it starts
  -- at most one goroutine for a type of objects, and this one runs the informer that the factory
  -- holds for the type.
  pub operate_each-DistinctKeys :
      DistinctKeys reached.goroutines
      × All (λ (t, i). lookup t reached.factory.informers ≡ some i) reached.goroutines
  operate_each-DistinctKeys =
      let inv = reachable-Sound new_funcs client resync options w os in
      (
        inv.once,
        lookup-All (λ (t, i). lookup t reached.factory.informers ≡ some i) reached.goroutines
            inv.once inv.from_table,
      )

  -- After any operations, `Shutdown` can return exactly if as many goroutines have ended as were
  -- started.
  pub operate_each-can_return :
      (can_return (shutdown reached) ≡ true) ↔ (reached.ended ≡ length reached.goroutines)
  unfolding can_return shutdown
  operate_each-can_return =
      let inv = reachable-Sound new_funcs client resync options w os in ground (arith, inv.counted)

  -- After any operations, `Start` leaves a goroutine for exactly the types that the factory holds an
  -- informer for, if it is not shutting down, and starts none if it is.
  pub start-goroutines :
      (t : String)
      → has t (start reached).goroutines ≡ (
          if reached.factory.shutting_down
          then has t reached.goroutines
          else has t reached.factory.informers)
  unfolding start
  start-goroutines t =
      let inv = reachable-Sound new_funcs client resync options w os in
      if-elim reached.factory.shutting_down (λ (s : FactoryState C O I W). has t s.goroutines)
        reached (start_all reached.factory.informers reached)
      ∙ ap (λ x. if reached.factory.shutting_down then has t reached.goroutines else x)
          (has-start_all t reached.factory.informers reached
              (lookup-All (λ (u, i). lookup u reached.factory.informers ≡ some i)
                reached.factory.informers inv.distinct (λ u i e. e))
              inv
            ∙ has_started t reached inv)
