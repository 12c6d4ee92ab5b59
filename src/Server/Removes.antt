-- ===== src/Server/Removes.antt =====
-- `OnBridgeConfigUpdate` (pkg/server/server.go) and the VLAN interfaces that are wanted no more.
use mathlib.Core.Path.{subst}
use text.Mathlib.TextEquality.{eq_iff}
use bridge_operator.Prelude.{
  All, All-map, Bool, List, Result-cases, String, ap, arith, contains, err, false, inl, inr, int_eq,
  nat_eq, none, not_found, ok, refl, some, string_eq, true, ◌==◌, ◌∙◌, ◌≡◌, ◌≢◌,
}
use bridge_operator.Bridge.{bridge_update, update_found}
use bridge_operator.Bridge.Configured.{GrantsBridge, filtering-Safe}
use bridge_operator.Cluster.{Cluster}
use bridge_operator.Egress.{difference, egress_interface_reconcile}
use bridge_operator.Egress.Difference.{contains-difference}
use bridge_operator.Egress.Masters.{master}
use bridge_operator.Egress.Masters.Reconcile.{egress_interface_reconcile-wanted_master, of_name}
use bridge_operator.Egress.Rules.{All-difference, Keeps-add_interface, Keeps-remove_interface}
use bridge_operator.Filtering.Plan.{missing}
use bridge_operator.Netlink.{
  Kernel, Link, NetCall, bridge_device, link_set_master, link_set_no_master,
}
use bridge_operator.Ports.{
  is_port_managed, remove_port, remove_port_management, set_port, set_port_management,
}
use bridge_operator.Ports.Laws.{
  is_port_managed-port_entry, port_entry-remove_port_management, port_entry-set_port_management,
}
use bridge_operator.Server.{on_bridge_config_update}
use bridge_operator.Egress.Spares.{Others}
use bridge_operator.Server.Spares.{others}
use bridge_operator.Server.Update.{update_is_bridge_update}
use bridge_operator.State.{State, final, gets, modify_ports, netlink, pure, returned, ◌>>=◌}
use bridge_operator.State.Keeps.{Keeps, Keeps-bind, Keeps-for_each, Keeps-for_each-All, Keeps-pure}
use bridge_operator.Types.{
  BridgeConfiguration, EgressInterface, EgressVlanInterface, interface_eq, vlan_interface_eq,
}
use bridge_operator.Vlan.{egress_vlan_interface_reconcile}
use bridge_operator.Vlan.Joined.Loop.{for_each-Steps}
use bridge_operator.Vlan.Removed.{Distinct, GrantsRemovals, call-Distinct, makes_none}
use bridge_operator.Vlan.Removed.Loop.{removals-Absent}
use bridge_operator.VlanName.{generate_egress_vlan_interface_name}

module _ {W : Type 0} (k : Kernel W) (kernel : GrantsBridge k) (removals : GrantsRemovals k)
    (c : Cluster W) (br : Link) (n : String) where
  open kernel use {grants_vlans}
  open grants_vlans use {grants, only_missing}

  -- The daemon manages the port `n`, and no VLAN interface is the bridge.
  record Ready (s : State W) : Type 0 where
    managed : is_port_managed br.name n s.managed_bridge_ports ≡ true
    distinct : Distinct k grants removals br n s.world

  netlink-Ready : (a : NetCall) → makes_none a ≡ true → Keeps Ready (netlink k a)
  unfolding netlink
  netlink-Ready a makes = record {
    at = λ s h. record {
      managed = h.managed;
      distinct = call-Distinct k grants removals br n a s.world makes h.distinct;
    };
  }

  remove_port-Ready : (port : String) → port ≢ n → Keeps Ready (remove_port br.name port)
  unfolding remove_port modify_ports
  remove_port-Ready port other = record {
    at = λ s h. record {
      managed = ground (
        arith,
        h.managed,
        other,
        eq_iff port n,
        is_port_managed-port_entry br.name n s.managed_bridge_ports,
        is_port_managed-port_entry br.name n
            (remove_port_management br.name port s.managed_bridge_ports).1,
        port_entry-remove_port_management br.name port br.name n s.managed_bridge_ports,
      );
      distinct = h.distinct;
    };
  }

  set_port-Ready : (port : String) (managed : Bool) → Keeps Ready (set_port br.name port managed)
  unfolding set_port modify_ports
  set_port-Ready port managed = record {
    at = λ s h. record {
      managed = ground (
        arith,
        h.managed,
        eq_iff port n,
        is_port_managed-port_entry br.name n s.managed_bridge_ports,
        is_port_managed-port_entry br.name n
            (set_port_management br.name port managed s.managed_bridge_ports).1,
        port_entry-set_port_management br.name port br.name n s.managed_bridge_ports managed,
      );
      distinct = h.distinct;
    };
  }

  reconcile-Ready :
      (olds news : List EgressInterface)
      → Others n olds
      → Keeps Ready (egress_interface_reconcile k br olds news)
  unfolding egress_interface_reconcile
  reconcile-Ready olds news away =
      Keeps-bind _ _
        (Keeps-for_each-All (difference olds news) _ (
          All-map _ _ (difference olds news)
            (λ v other.
              Keeps-remove_interface k br v (λ link. netlink-Ready (link_set_no_master link) refl)
                (remove_port-Ready v.name other))
            (All-difference (λ v. v.name ≢ n) olds news away)))
        (λ _.
          Keeps-bind _ _
            (Keeps-for_each (difference news olds) _ (λ v.
              Keeps-add_interface k br v (λ link. netlink-Ready (link_set_master link br) refl)
                (set_port-Ready v.name)))
            (λ _. Keeps-pure none))

  -- Both parts of `egressInterfaceReconcile` and `egressVlanInterfaceReconcile` together.
  reconciles_away :
      (olds news : List EgressInterface) (old_vlans new_vlans : List EgressVlanInterface)
      (v : EgressVlanInterface) (s : State W)
      → (br.index == 0) ≡ false
      → generate_egress_vlan_interface_name v ≡ n
      → contains v old_vlans ≡ true
      → contains v new_vlans ≡ false
      → contains (of_name n) olds ≡ false
      → contains (of_name n) news ≡ false
      → All (λ x. generate_egress_vlan_interface_name x ≢ n) new_vlans
      → Ready s
      → master k n s.world ≡ some br.index
      → (u : State W) × (t : State W) × (egress_interface_reconcile k br olds news s
          ≡ returned none u)
        × (egress_vlan_interface_reconcile k br old_vlans new_vlans u ≡ returned none t)
        × (master k n t.world ≡ none)
  unfolding egress_vlan_interface_reconcile pure ◌>>=◌
  reconciles_away olds news old_vlans new_vlans v s has_index named was is_not old_free new_free
        others_named ready inside =
      let (u, e, m) = egress_interface_reconcile-wanted_master k grants br olds news n s in
      let still : Ready u =
        subst (λ o. Ready (final o)) e
          ((reconcile-Ready olds news (others n olds old_free)).at s ready) in
      let present : master k n u.world ≡ some br.index = m ∙ rw (old_free, new_free) inside in
      let (w, e1, away) =
        removals-Absent k grants removals br n has_index (difference old_vlans new_vlans) v u
          (contains-difference v old_vlans new_vlans ∙ rw (was, is_not) refl) named
          (inl (still.managed, present), still.distinct) in
      let steps = for_each-Steps k grants_vlans br (difference new_vlans old_vlans) w in
      (
        u,
        steps.final_state,
        e,
        rw (e1, steps.all_run) refl,
        steps.all_no_others n
            (All-difference (λ x. generate_egress_vlan_interface_name x ≢ n) new_vlans old_vlans
              others_named)
            away,
      )

  no_link : (w : W) → master k n w ≡ none → k.link_by_name n w ≡ err not_found
  unfolding master
  no_link w away = elim (Result-cases (k.link_by_name n w)) [
    | inl (e, missing) ↦ missing ∙ ap err (only_missing n w e missing)
    | inr (link, found) ↦ absurd (ground (arith, away, found))
  ]

module _ {W : Type 0} (k : Kernel W) (kernel : GrantsBridge k) (removals : GrantsRemovals k)
    (c : Cluster W) where
  open kernel use {grants_vlans}
  open grants_vlans use {grants}

  -- If the bridge of a configuration is there as a bridge, and the kernel carries out all calls as
  -- `GrantsBridge` and `GrantsRemovals` say, then `OnBridgeConfigUpdate` returns, and takes away the
  -- link of a VLAN interface that the old configuration names and the new one does not, provided
  -- that the daemon manages it as a port of the bridge, that it is in the bridge, and that no VLAN
  -- interface of the new configuration and no physical interface of either has its name. The index
  -- of the bridge must not be 0, nor that of a link with the name of a VLAN interface.
  pub on_bridge_config_update-removes :
      (old_config config : BridgeConfiguration) (br : Link) (filtering : Bool)
      (v : EgressVlanInterface) (s : State W)
      → k.link_by_name config.metadata.name s.world ≡ ok br
      → br.device ≡ bridge_device (some filtering)
      → (br.index == 0) ≡ false
      → Distinct k grants removals br (generate_egress_vlan_interface_name v) s.world
      → contains v old_config.spec.egress_vlan_interfaces ≡ true
      → contains v config.spec.egress_vlan_interfaces ≡ false
      → is_port_managed br.name (generate_egress_vlan_interface_name v) s.managed_bridge_ports
        ≡ true
      → master k (generate_egress_vlan_interface_name v) s.world ≡ some br.index
      → contains (of_name (generate_egress_vlan_interface_name v)) old_config.spec.egress_interfaces
        ≡ false
      → contains (of_name (generate_egress_vlan_interface_name v)) config.spec.egress_interfaces
        ≡ false
      → All
          (λ x. generate_egress_vlan_interface_name x ≢ generate_egress_vlan_interface_name v)
          config.spec.egress_vlan_interfaces
      → (t : State W) × (on_bridge_config_update k c old_config config s ≡ returned tt t)
        × (k.link_by_name (generate_egress_vlan_interface_name v) t.world ≡ err not_found)
  unfolding bridge_update update_found gets pure ◌>>=◌
  on_bridge_config_update-removes old_config config br filtering v s found device has_index distinct
        was is_not managed inside old_free new_free others_named =
      let n = generate_egress_vlan_interface_name v in
      let (u, w, e, e1, away) =
        reconciles_away k kernel removals c br n old_config.spec.egress_interfaces
          config.spec.egress_interfaces old_config.spec.egress_vlan_interfaces
          config.spec.egress_vlan_interfaces v s has_index refl was is_not old_free new_free
          others_named (record { managed = managed; distinct = distinct }) inside in
      let (a, t, e2, gone) =
        (filtering-Safe k kernel n none config br filtering device).at w away in
      (
        t,
        update_is_bridge_update k c old_config config s ∙ rw (found, e, e1, e2) refl,
        no_link k kernel removals c br n t.world gone,
      )
