-- ===== src/Dispatch/Registered.antt =====
-- Which handlers run, and on what.
use bridge_operator.Prelude.{List, [], int_eq, nat_eq, refl, string_eq, ◌++◌, ◌∷◌, ◌≡◌}
use bridge_operator.Dispatch.{
  BridgeConfConfig, BridgeConfHandler, Obj, config_obj, deleted_final_state_unknown, foreign_obj,
  handle_add_bridge_conf, handle_delete_bridge_conf, handle_update_bridge_conf,
  register_event_handler,
}
use bridge_operator.State.{
  M, Outcome, State, continue, for_each, panicked, pure, returned, ◌>>=◌, ◌>>◌,
}
use bridge_operator.Types.{BridgeConfiguration, interface_eq, vlan_interface_eq}

module _ {W : Type 0} (b : BridgeConfConfig W) where
  -- A deletion is passed on to the handlers in the same way whether the informer hands over the
  -- configuration or, having missed the deletion, wraps it in a `DeletedFinalStateUnknown`; any
  -- other object, wrapped or not, and a doubly wrapped one, is passed on to none.
  pub handle_delete_bridge_conf-unwraps :
      (config : BridgeConfiguration) (obj : Obj) (s : State W)
      → (handle_delete_bridge_conf b (deleted_final_state_unknown (config_obj config)) s
          ≡ handle_delete_bridge_conf b (config_obj config) s)
        × (handle_delete_bridge_conf b foreign_obj s ≡ returned tt s)
        × (handle_delete_bridge_conf b (deleted_final_state_unknown foreign_obj) s ≡ returned tt s)
        × (handle_delete_bridge_conf b
              (deleted_final_state_unknown (deleted_final_state_unknown obj))
              s
            ≡ returned tt s)
  unfolding handle_delete_bridge_conf pure
  handle_delete_bridge_conf-unwraps config obj s = (refl, refl, refl, refl)

  continue-pure : (o : Outcome W (Unit {0})) → continue o (λ _. pure tt) ≡ o
  unfolding pure
  continue-pure (returned a s) = refl
  continue-pure (panicked s) = refl

  continue-then :
      (o : Outcome W (Unit {0})) (m f g : M W (Unit {0}))
      → ((t : State W) → m t ≡ (f >> g) t)
      → continue o (λ _. m) ≡ continue (continue o (λ _. f)) (λ _. g)
  unfolding ◌>>=◌
  continue-then (returned a s) m f g h = h s
  continue-then (panicked s) m f g h = refl

  for_each-append :
      {A : Type 0} (xs : List A) (x : A) (body : A → M W (Unit {0})) (s : State W)
      → for_each (xs ++ x ∷ []) body s ≡ (for_each xs body >> body x) s
  unfolding for_each ◌>>=◌ pure
  for_each-append [] x body s = continue-pure (body x s)
  for_each-append (y ∷ xs) x body s =
      continue-then (body y s) _ (for_each xs body) (body x) (for_each-append xs x body)

  -- A handler that is registered runs last: on each kind of notification about a configuration, the
  -- handlers that were registered before it run as they would without it, and then it runs, unless
  -- one of them panics.
  pub register_event_handler-runs_last :
      (h : BridgeConfHandler W) (old_config config : BridgeConfiguration) (s : State W)
      → (handle_add_bridge_conf (register_event_handler b h) (config_obj config) s
          ≡ (handle_add_bridge_conf b (config_obj config) >> h.on_add config) s)
        × (handle_update_bridge_conf
              (register_event_handler b h)
              (config_obj old_config)
              (config_obj config)
              s
            ≡ (handle_update_bridge_conf b (config_obj old_config) (config_obj config)
                  >> h.on_update old_config config)
                s)
        × (handle_delete_bridge_conf (register_event_handler b h) (config_obj config) s
            ≡ (handle_delete_bridge_conf b (config_obj config) >> h.on_delete config) s)
  unfolding register_event_handler handle_add_bridge_conf handle_update_bridge_conf
      handle_delete_bridge_conf
  register_event_handler-runs_last h old_config config s = (
    for_each-append b.event_handlers h (λ g. g.on_add config) s,
    for_each-append b.event_handlers h (λ g. g.on_update old_config config) s,
    for_each-append b.event_handlers h (λ g. g.on_delete config) s,
  )
