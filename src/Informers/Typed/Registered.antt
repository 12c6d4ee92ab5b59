-- ===== src/Informers/Typed/Registered.antt =====
-- The informer that `Server.Run` (pkg/server/server.go) sets up.
use bridge_operator.Prelude.{List, String, [], int_eq, nat_eq, none, refl, string_eq, ℤ, ◌∷◌, ◌≡◌}
use bridge_operator.GoMap.{lookup, put}
use bridge_operator.Informers.{
  informer_for, is_started, new_shared_informer_factory_with_options, resync_period, start,
  start_all, start_one,
}
use bridge_operator.Informers.Typed.{
  Client, ListWatch, bridge_configuration, default_informer, informer, new_filtered_informer, wire,
}
use bridge_operator.Tracker.{name_eq}
use bridge_operator.Types.{interface_eq, vlan_interface_eq}

module _ {I O R W : Type 0}
    (new_shared_index_informer : ListWatch O R → String → ℤ → List String → W → I × W) where
  -- `Server.Run` has one informer made, with the period of the server and no filter. The lister, the
  -- wait for the cache and the handlers all use it, and it is the one that the factory starts, once.
  pub wire-one :
      (client : Client O R) (config_sync_period : ℤ) (w : W)
      → let (i, w1) =
          new_filtered_informer new_shared_index_informer bridge_configuration client
            config_sync_period
            ("namespace" ∷ [])
            none
            w in
        let wiring = wire new_shared_index_informer client config_sync_period w in
        (wiring.listed ≡ i)
        × (wiring.synced ≡ i)
        × (wiring.handled ≡ i)
        × (wiring.state.goroutines ≡ (bridge_configuration, i) ∷ [])
        × (wiring.state.world ≡ w1)
  unfolding wire new_filtered_informer informer informer_for lookup
      new_shared_informer_factory_with_options default_informer resync_period put start start_all
      start_one is_started
  wire-one client config_sync_period w = (refl, refl, refl, refl, refl)
