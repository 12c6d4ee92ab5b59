-- ===== src/Examples/Changes.antt =====
-- The change tracker: its start, and the addition of the configuration `br1`.
use bridge_operator.Prelude.{
  Bool, [], arith, false, int_eq, nat_eq, none, refl, some, string_eq, true, ◌∷◌, ◌≡◌,
}
use bridge_operator.Examples.World.{config, interface}
use bridge_operator.GoMap.{lookup}
use bridge_operator.Tracker.{
  BridgeConfChangeTracker, NamespacedName, apply, name_eq, name_of, new_bridge_conf_change_tracker,
  subject, track, update,
}
use bridge_operator.Tracker.Apply.{infos}
use bridge_operator.Tracker.Refinement.{
  Configs, Tracks, Tracks-track, apply-Tracks, set_config, update-Tracks,
}
use bridge_operator.Types.{BridgeConfiguration, interface_eq, vlan_interface_eq}

abbrev blue : BridgeConfiguration
blue = config "br1" (interface "eth0" ∷ []) []

abbrev no_configs : Configs
no_configs n = none

abbrev never_equal : BridgeConfiguration → BridgeConfiguration → Bool
never_equal a b = false

never_equal_sound : (a b : BridgeConfiguration) → never_equal a b ≡ true → a ≡ b
never_equal_sound a b e = cc

at_start : Tracks [] new_bridge_conf_change_tracker no_configs
unfolding new_bridge_conf_change_tracker lookup
at_start = record {
  distinct = tt;
  named = λ n. tt;
  settled = λ n e. refl;
  pending = λ n change e. absurd (ground (arith, e));
}

tracked_change_example :
    (t : BridgeConfChangeTracker) × (update never_equal
        (some new_bridge_conf_change_tracker)
        none
        (some blue)
      ≡ (true, some t))
    × Tracks [] t (set_config (name_of blue) (some blue) no_configs)
unfolding subject
tracked_change_example =
    update-Tracks never_equal never_equal_sound [] new_bridge_conf_change_tracker no_configs
      (name_of blue) (some blue) blue at_start refl refl

-- The tracker that the addition leaves.
abbrev pending_blue : BridgeConfChangeTracker
pending_blue = track never_equal new_bridge_conf_change_tracker (name_of blue) none (some blue)

pending_blue-Tracks : Tracks [] pending_blue (set_config (name_of blue) (some blue) no_configs)
pending_blue-Tracks =
    Tracks-track never_equal never_equal_sound [] new_bridge_conf_change_tracker no_configs
      (name_of blue) (some blue) at_start refl

applied_change_example :
    ((n : NamespacedName)
      → lookup n (apply [] pending_blue).0
        ≡ infos (set_config (name_of blue) (some blue) no_configs n))
    × ((apply [] pending_blue).1 ≡ new_bridge_conf_change_tracker)
applied_change_example =
    apply-Tracks [] pending_blue (set_config (name_of blue) (some blue) no_configs)
      pending_blue-Tracks
