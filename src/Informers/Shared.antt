-- ===== src/Informers/Shared.antt =====
-- An informer that a factory holds (pkg/client/informers/externalversions/factory.go) is shared.
use bridge_operator.Prelude.{
  Bool-cases, List, Option-cases, String, [], arith, beq_refl, inl, inr, int_eq, nat_eq, refl, some,
  string_eq, ◌∙◌, ◌∷◌, ◌≡◌,
}
use bridge_operator.GoMap.{GoMap, lookup}
use bridge_operator.GoMap.Laws.{lookup-put, lookup-put_absent}
use bridge_operator.Informers.{
  FactoryState, NewInformerFunc, Operation, end_one, end_op, informer_for, informer_op, operate,
  operate_each, shutdown, shutdown_op, start, start_all, start_one, start_op,
}
use bridge_operator.Informers.Invariant.{start_one-informers}
use bridge_operator.Tracker.{name_eq}
use bridge_operator.Types.{interface_eq, vlan_interface_eq}

module _ {C O I W : Type 0} where
  start_all-informers :
      (m : GoMap String I) (s : FactoryState C O I W)
      → (start_all m s).factory.informers ≡ s.factory.informers
  unfolding start_all
  start_all-informers [] s = refl
  start_all-informers ((t, i) ∷ m) s =
      start_all-informers m (start_one t i s) ∙ start_one-informers t i s

  start-informers : (s : FactoryState C O I W) → (start s).factory.informers ≡ s.factory.informers
  unfolding start
  start-informers s = elim (Bool-cases s.factory.shutting_down) [
    | inl down ↦ rw down refl
    | inr up ↦ rw up (start_all-informers s.factory.informers _)
  ]

  end_one-informers :
      (s : FactoryState C O I W) → (end_one s).factory.informers ≡ s.factory.informers
  unfolding end_one
  end_one-informers s = ground arith

module _ {C O I W : Type 0} (new_funcs : String → NewInformerFunc C I W) where
  -- No operation replaces an informer.
  lookup-operate :
      (o : Operation) (t : String) (i : I) (s : FactoryState C O I W)
      → lookup t s.factory.informers ≡ some i
      → lookup t (operate new_funcs o s).factory.informers ≡ some i
  unfolding operate start shutdown end_one informer_for
  lookup-operate start_op t i s h = rw (start-informers s) h
  lookup-operate shutdown_op t i s h = h
  lookup-operate end_op t i s h = rw (end_one-informers s) h
  lookup-operate (informer_op u) t i s h = elim (Option-cases (lookup u s.factory.informers)) [
    | inl absent ↦
        rw (operate, informer_for, absent) (lookup-put_absent u t _ i s.factory.informers absent h)
    | inr (j, found) ↦ rw (operate, informer_for, found) h
  ]

  lookup-operate_each :
      (os : List Operation) (t : String) (i : I) (s : FactoryState C O I W)
      → lookup t s.factory.informers ≡ some i
      → lookup t (operate_each new_funcs os s).factory.informers ≡ some i
  unfolding operate_each
  lookup-operate_each [] t i s h = h
  lookup-operate_each (o ∷ os) t i s h =
      lookup-operate_each os t i (operate new_funcs o s) (lookup-operate o t i s h)

  lookup-informer_for :
      (t : String) (new_func : NewInformerFunc C I W) (s : FactoryState C O I W)
      → let (i, s1) = informer_for t new_func s in lookup t s1.factory.informers ≡ some i
  unfolding informer_for
  lookup-informer_for t new_func s = elim (Option-cases (lookup t s.factory.informers)) [
    | inl absent ↦
        rw (informer_for, absent) (lookup-put t t _ s.factory.informers ∙ rw (beq_refl t))
    | inr (j, found) ↦ rw (informer_for, found) found
  ]

  -- `InformerFor` gives the informer that it gave for the type before, and changes nothing, whatever
  -- happened to the factory since and whichever function to make an informer it is handed.
  pub informer_for-shared :
      (t : String) (new_func other_func : NewInformerFunc C I W) (os : List Operation)
      (s : FactoryState C O I W)
      → let (i, s1) = informer_for t new_func s in
        let s2 = operate_each new_funcs os s1 in informer_for t other_func s2 ≡ (i, s2)
  unfolding informer_for
  informer_for-shared t new_func other_func os s =
      let (i, s1) = informer_for t new_func s in
      rw (informer_for, lookup-operate_each os t i s1 (lookup-informer_for t new_func s)) refl
