-- ===== src/Server/Spares.antt =====
-- The interfaces of others in `OnBridgeConfigUpdate` (pkg/server/server.go).
use text.Mathlib.TextEquality.{eq_iff}
use bridge_operator.Prelude.{
  Bool, List, String, [], arith, contains, false, int_eq, nat_eq, none, ok, refl, some, string_eq,
  ◌∷◌, ◌≡◌,
}
use bridge_operator.Bridge.{bridge_update, update_found}
use bridge_operator.Cluster.{Cluster}
use bridge_operator.Egress.{egress_interface_reconcile}
use bridge_operator.Egress.Masters.Reconcile.{of_name}
use bridge_operator.Egress.Spares.{IsNamed, Others, Spared, Spares, reconcile-Spared}
use bridge_operator.Filtering.{bridge_vlan_filtering_reconcile}
use bridge_operator.Filtering.Untouched.{bridge_vlan_filtering_reconcile-Safe}
use bridge_operator.Netlink.{Kernel, Link, bridge_device}
use bridge_operator.Ports.{is_port_managed}
use bridge_operator.Server.{on_bridge_config_update}
use bridge_operator.Server.Update.{update_is_bridge_update}
use bridge_operator.State.{M, State, final, gets, netlink, pure, ◌>>=◌}
use bridge_operator.State.Issues.{Issues, Issues-call, Issues-refl}
use bridge_operator.State.Keeps.{Keeps, Keeps-bind, Keeps-pure, continue-Keeps, continue_to}
use bridge_operator.State.Safe.{Safe}
use bridge_operator.Types.{BridgeConfiguration, EgressInterface, interface_eq, vlan_interface_eq}
use bridge_operator.Vlan.{egress_vlan_interface_reconcile}
use bridge_operator.Vlan.Spares.{KeepsNames, OtherVlans, additions-Issues, vlan_reconcile-Issues}

Safe-Keeps : {W A : Type 0} {P : State W → Type 0} {m : M W A} → Safe P m → Keeps P m
Safe-Keeps {P = P} safe = record { at = λ s h. let (a, t, e, g) = safe.at s h in rw e g }

pub others :
    (n : String) (vs : List EgressInterface) → contains (of_name n) vs ≡ false → Others n vs
unfolding contains
others n [] h = tt
others n (v ∷ vs) h =
    (λ same. absurd (ground (arith, h, same, eq_iff n v.name)), others n vs (ground (arith, h)))

module _ {W : Type 0} (k : Kernel W) (named : IsNamed k) (indexed : KeepsNames k) (c : Cluster W)
    (n : String) where
  filtering-Issues :
      (config : BridgeConfiguration) (br : Link) (filtering : Bool) (s : State W)
      → br.device ≡ bridge_device (some filtering)
      → Keeps (Issues (Spares n) s) (bridge_vlan_filtering_reconcile k config (some br))
  unfolding netlink
  filtering-Issues config br filtering s device = Safe-Keeps (
      bridge_vlan_filtering_reconcile-Safe k
        (λ l on. record { at = λ t h. (_, _, refl, Issues-call _ _ h refl tt) })
        (λ l vid a b c d. record { at = λ t h. (_, _, refl, Issues-call _ _ h refl tt) })
        (λ l vid a b c d. record { at = λ t h. (_, _, refl, Issues-call _ _ h refl tt) }) config br
        filtering device)

  update_found-Issues :
      (old_config config : BridgeConfiguration) (br : Link) (filtering : Bool) (s : State W)
      → br.device ≡ bridge_device (some filtering)
      → is_port_managed br.name n s.managed_bridge_ports ≡ false
      → Others n config.spec.egress_interfaces
      → OtherVlans n config.spec.egress_vlan_interfaces
      → Issues (Spares n) s (final (update_found k (some old_config) config (ok br) s))
  unfolding update_found ◌>>=◌
  update_found-Issues old_config config br filtering s device unmanaged away away_vlans =
      let olds = old_config.spec.egress_interfaces in
      let news = config.spec.egress_interfaces in
      let old_vlans = old_config.spec.egress_vlan_interfaces in
      let new_vlans = config.spec.egress_vlan_interfaces in
      continue_to (Spared br.name n s) (Issues (Spares n) s)
        (egress_interface_reconcile k br olds news s) _ (λ t h. h.issues)
        ((reconcile-Spared k named br n s olds news away).at s
          (record { unmanaged = unmanaged; issues = Issues-refl s }))
        (λ _ t h.
          continue-Keeps (egress_vlan_interface_reconcile k br old_vlans new_vlans t) _
            (vlan_reconcile-Issues k named br n s old_vlans new_vlans
              (additions-Issues k named br n s indexed new_vlans away_vlans) t h)
            (λ _.
              Keeps-bind _ (λ _. pure none) (filtering-Issues config br filtering s device)
                (λ _. Keeps-pure none)))

  -- If the bridge of a configuration is there as a bridge, the kernel looks links up by their names
  -- and `LinkAdd` leaves the name of the link that it is given, then `OnBridgeConfigUpdate` makes no
  -- call that takes the master from (`LinkSetNoMaster`), deletes (`LinkDel`) or moves to a bridge
  -- (`LinkSetMaster`) a link that the daemon does not manage as a port of the bridge and that is
  -- neither a physical nor a VLAN interface of the new configuration, whatever the old configuration
  -- names, and whether or not it panics.
  pub on_bridge_config_update-leaves_unmanaged :
      (old_config config : BridgeConfiguration) (br : Link) (filtering : Bool) (s : State W)
      → k.link_by_name config.metadata.name s.world ≡ ok br
      → br.device ≡ bridge_device (some filtering)
      → is_port_managed br.name n s.managed_bridge_ports ≡ false
      → contains (of_name n) config.spec.egress_interfaces ≡ false
      → OtherVlans n config.spec.egress_vlan_interfaces
      → Issues (Spares n) s (final (on_bridge_config_update k c old_config config s))
  unfolding bridge_update gets ◌>>=◌
  on_bridge_config_update-leaves_unmanaged old_config config br filtering s found device unmanaged
        away away_vlans =
      rw (update_is_bridge_update k c old_config config s, found)
        (continue-Keeps {P = Issues (Spares n) s}
          (update_found k (some old_config) config (ok br) s) (λ _. pure tt)
          (update_found-Issues old_config config br filtering s device unmanaged
            (others n config.spec.egress_interfaces away) away_vlans)
          (λ _. Keeps-pure tt))
