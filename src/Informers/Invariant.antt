-- ===== src/Informers/Invariant.antt =====
-- What holds of a factory of informers between its operations
-- (pkg/client/informers/externalversions/factory.go).
use mathlib.Core.Path.{subst}
use text.Mathlib.TextEquality.{eq_iff}
use bridge_operator.Prelude.{
  All, Bool, Bool-cases, List, Option-cases, String, [], arith, false, if◌then◌else◌, inl, inr,
  int_eq, length, nat_eq, refl, some, string_eq, true, ℤ, ◌+◌, ◌==◌, ◌∙◌, ◌∷◌, ◌≡◌,
}
use bridge_operator.GoMap.{GoMap, has, lookup}
use bridge_operator.GoMap.Laws.{
  DistinctKeys, lookup-All, lookup-put, lookup-put_absent, put-DistinctKeys,
}
use bridge_operator.Informers.{
  FactoryState, NewInformerFunc, Operation, SharedInformerFactory, SharedInformerOption,
  apply_options, custom_resync_config, end_one, end_op, fresh, in_namespace, informer_for,
  informer_op, is_started, new_shared_informer_factory_with_options, operate, operate_each,
  shutdown, shutdown_op, start, start_all, start_one, start_op, tweak_list,
  with_custom_resync_config, with_namespace, with_tweak_list_options,
}
use bridge_operator.Tracker.{name_eq}
use bridge_operator.Types.{interface_eq, vlan_interface_eq}

module _ {C O I : Type 0} where
  -- Nothing is registered or started in a factory that is new.
  IsNew : SharedInformerFactory C O I → Type 0
  IsNew f = (f.informers ≡ []) × (f.started_informers ≡ []) × (f.wait_group ≡ 0)

  with_custom_resync_config-IsNew :
      (config : GoMap String ℤ) (f : SharedInformerFactory C O I)
      → IsNew f
      → IsNew (with_custom_resync_config config f)
  unfolding with_custom_resync_config IsNew
  with_custom_resync_config-IsNew [] f h = h
  with_custom_resync_config-IsNew ((k, v) ∷ config) f h = with_custom_resync_config-IsNew config _ h

  apply_options-IsNew :
      (options : List (SharedInformerOption O)) (f : SharedInformerFactory C O I)
      → IsNew f
      → IsNew (apply_options options f)
  unfolding with_tweak_list_options with_namespace IsNew
  apply_options-IsNew [] f h = h
  apply_options-IsNew (custom_resync_config config ∷ options) f h =
      apply_options-IsNew options _ (with_custom_resync_config-IsNew config f h)
  apply_options-IsNew (tweak_list tweak ∷ options) f h = apply_options-IsNew options _ h
  apply_options-IsNew (in_namespace namespace ∷ options) f h = apply_options-IsNew options _ h

module _ {C O I W : Type 0} where
  pub record Sound (s : FactoryState C O I W) : Type 0 where
    pub distinct : DistinctKeys s.factory.informers
    pub once : DistinctKeys s.goroutines
    pub started : (t : String) → has t s.goroutines ≡ is_started s.factory t
    pub from_table :
        (t : String) (i : I)
        → lookup t s.goroutines ≡ some i
        → lookup t s.factory.informers ≡ some i
    pub counted : s.factory.wait_group + s.ended ≡ length s.goroutines

  pub start_one-Sound :
      (t : String) (i : I) (s : FactoryState C O I W)
      → lookup t s.factory.informers ≡ some i
      → Sound s
      → Sound (start_one t i s)
  unfolding start_one is_started has lookup
  start_one-Sound t i s h inv = elim (Bool-cases (is_started s.factory t)) [
    | inl old ↦ rw old inv
    | inr new ↦ rw new (record {
      distinct = inv.distinct;
      once = (inv.started t ∙ new, inv.once);
      started = λ u.
          ground
            (arith, lookup-put t u true s.factory.started_informers, inv.started u, eq_iff t u);
      from_table = λ u j e. elim (Bool-cases (t == u)) [
        | inl same ↦
            subst (λ x. lookup x s.factory.informers ≡ some j) ((eq_iff t u).0 same)
              (h ∙ rw same at e)
        | inr other ↦ inv.from_table u j (rw other at e)
      ];
      counted = ground (arith, inv.counted);
    })
  ]

  pub start_one-informers :
      (t : String) (i : I) (s : FactoryState C O I W)
      → (start_one t i s).factory.informers ≡ s.factory.informers
  unfolding start_one
  start_one-informers t i s = ground arith

  start_all-Sound :
      (m : GoMap String I) (s : FactoryState C O I W)
      → All (λ (t, i). lookup t s.factory.informers ≡ some i) m
      → Sound s
      → Sound (start_all m s)
  unfolding start_all
  start_all-Sound [] s h inv = inv
  start_all-Sound ((t, i) ∷ m) s h inv =
      start_all-Sound m (start_one t i s) (rw (start_one-informers t i s) h.1)
        (start_one-Sound t i s h.0 inv)

  Sound-if :
      (b : Bool) (s t : FactoryState C O I W) → Sound s → Sound t → Sound (if b then s else t)
  Sound-if true s t h k = h
  Sound-if false s t h k = k

  start-Sound : (s : FactoryState C O I W) → Sound s → Sound (start s)
  unfolding start
  start-Sound s inv = Sound-if s.factory.shutting_down s (start_all s.factory.informers s) inv (
      start_all-Sound s.factory.informers s
        (lookup-All (λ (t, i). lookup t s.factory.informers ≡ some i) s.factory.informers
          inv.distinct (λ t i e. e))
        inv)

  end_one-Sound : (s : FactoryState C O I W) → Sound s → Sound (end_one s)
  unfolding end_one is_started
  end_one-Sound s inv = elim (Bool-cases (s.factory.wait_group == 0)) [
    | inl none_left ↦ rw none_left inv
    | inr left ↦ rw left (record {
      distinct = inv.distinct;
      once = inv.once;
      started = inv.started;
      from_table = inv.from_table;
      counted = ground (arith, inv.counted, left);
    })
  ]

  informer_for-Sound :
      (t : String) (new_func : NewInformerFunc C I W) (s : FactoryState C O I W)
      → Sound s
      → Sound (informer_for t new_func s).1
  unfolding informer_for is_started
  informer_for-Sound t new_func s inv = elim (Option-cases (lookup t s.factory.informers)) [
    | inl absent ↦
        rw (informer_for, absent)
          (record {
            distinct = put-DistinctKeys t _ s.factory.informers inv.distinct;
            once = inv.once;
            started = inv.started;
            from_table = λ u j e.
                lookup-put_absent t u _ j s.factory.informers absent (inv.from_table u j e);
            counted = inv.counted;
          })
    | inr (i, found) ↦ rw (informer_for, found) inv
  ]

  operate-Sound :
      (new_funcs : String → NewInformerFunc C I W) (o : Operation) (s : FactoryState C O I W)
      → Sound s
      → Sound (operate new_funcs o s)
  unfolding operate shutdown is_started
  operate-Sound new_funcs start_op s inv = start-Sound s inv
  operate-Sound new_funcs shutdown_op s inv = record {
    distinct = inv.distinct;
    once = inv.once;
    started = inv.started;
    from_table = inv.from_table;
    counted = inv.counted;
  }
  operate-Sound new_funcs end_op s inv = end_one-Sound s inv
  operate-Sound new_funcs (informer_op t) s inv = informer_for-Sound t (new_funcs t) s inv

  operate_each-Sound :
      (new_funcs : String → NewInformerFunc C I W) (os : List Operation) (s : FactoryState C O I W)
      → Sound s
      → Sound (operate_each new_funcs os s)
  unfolding operate_each
  operate_each-Sound new_funcs [] s inv = inv
  operate_each-Sound new_funcs (o ∷ os) s inv =
      operate_each-Sound new_funcs os (operate new_funcs o s) (operate-Sound new_funcs o s inv)

  fresh-Sound : (f : SharedInformerFactory C O I) (w : W) → IsNew f → Sound (fresh f w)
  unfolding IsNew is_started has lookup
  fresh-Sound f w (no_informers, none_started, none_left) = record {
    distinct = rw no_informers tt;
    once = tt;
    started = λ t. rw none_started;
    from_table = λ t i e. absurd (ground (arith, e));
    counted = rw none_left;
  }

  pub reachable-Sound :
      (new_funcs : String → NewInformerFunc C I W) (client : C) (resync : ℤ)
      (options : List (SharedInformerOption O)) (w : W) (os : List Operation)
      → Sound (
          operate_each new_funcs os
            (fresh (new_shared_informer_factory_with_options client resync options) w))
  unfolding new_shared_informer_factory_with_options IsNew
  reachable-Sound new_funcs client resync options w os =
      operate_each-Sound new_funcs os _
        (fresh-Sound _ w (apply_options-IsNew options _ (refl, refl, refl)))
