-- ===== src/Egress/Records.antt =====
-- What `egressInterfaceReconcile` records of the ports that it attaches.
use bridge_operator.Prelude.{
  Bool-cases, List, Result, String, arith, err, false, inl, inr, int_eq, nat_eq, none, ok, some,
  string_eq, true, ◌==◌, ◌≡◌, ◌≢◌,
}
use bridge_operator.Egress.{add_interface, attach, egress_interface_reconcile, is_nil}
use bridge_operator.Egress.Rules.{Keeps-remove_interface}
use bridge_operator.Netlink.{Kernel, Link, NetCall, link_set_master, link_set_no_master}
use bridge_operator.Ports.{remove_port, set_port}
use bridge_operator.Ports.Laws.{
  port_entry, port_entry-remove_port_management, port_entry-set_port_management,
}
use bridge_operator.State.{State, final, modify_ports, netlink}
use bridge_operator.State.Keeps.{
  Keeps, Keeps-bind, Keeps-for_each, Keeps-gets, Keeps-if, Keeps-pure, keeps_rules,
}
use bridge_operator.Types.{EgressInterface, interface_eq, vlan_interface_eq}

module _ {W : Type 0} (k : Kernel W) (br : Link) (s : State W) where
  -- Of the ports of the bridge, no more are recorded as not managed than in `s`.
  record NoNewForeign (t : State W) : Type 0 where
    were_foreign :
        (p : String)
        → port_entry br.name p t.managed_bridge_ports ≡ some false
        → port_entry br.name p s.managed_bridge_ports ≡ some false

  netlink-NoNewForeign : (c : NetCall) → Keeps NoNewForeign (netlink k c)
  unfolding netlink
  netlink-NoNewForeign c = record { at = λ t h. record { were_foreign = h.were_foreign } }

  set_port-NoNewForeign : (port : String) → Keeps NoNewForeign (set_port br.name port true)
  unfolding set_port modify_ports
  set_port-NoNewForeign port = record {
    at = λ t h. record {
      were_foreign = λ p e. h.were_foreign p (
          ground (
            arith,
            e,
            port_entry-set_port_management br.name port br.name p t.managed_bridge_ports true,
          ));
    };
  }

  remove_port-NoNewForeign : (port : String) → Keeps NoNewForeign (remove_port br.name port)
  unfolding remove_port modify_ports
  remove_port-NoNewForeign port = record {
    at = λ t h. record {
      were_foreign = λ p e. h.were_foreign p (
          ground (
            arith,
            e,
            port_entry-remove_port_management br.name port br.name p t.managed_bridge_ports,
          ));
    };
  }

  module _ (is_real : br.index ≢ 0) where
    attach-NoNewForeign :
        (port : String) (r : Result Link) → Keeps NoNewForeign (attach k br port r)
    unfolding attach
    attach-NoNewForeign port (err e) = search keeps_rules
    attach-NoNewForeign port (ok link) = elim (Bool-cases (link.master_index == 0)) [
      | inl free ↦ elim (Bool-cases (link.master_index == br.index)) [
        | inl same ↦ absurd (is_real (ground (arith, free, same)))
        | inr other ↦
            rw (free, other)
              (Keeps-bind _ _ (netlink-NoNewForeign (link_set_master link br))
                (λ e. Keeps-if (is_nil e) _ _ (set_port-NoNewForeign port) (Keeps-pure tt)))
      ]
      | inr taken ↦ rw taken (Keeps-pure tt)
    ]

    add_interface-NoNewForeign : (v : EgressInterface) → Keeps NoNewForeign (add_interface k br v)
    unfolding add_interface
    add_interface-NoNewForeign v = Keeps-bind _ _ (Keeps-gets _) (attach-NoNewForeign v.name)

    reconcile-NoNewForeign :
        (olds news : List EgressInterface)
        → Keeps NoNewForeign (egress_interface_reconcile k br olds news)
    unfolding egress_interface_reconcile
    reconcile-NoNewForeign olds news =
        Keeps-bind _ _
          (Keeps-for_each _ _ (λ v.
            Keeps-remove_interface k br v (λ link. netlink-NoNewForeign (link_set_no_master link))
              (remove_port-NoNewForeign v.name)))
          (λ _.
            Keeps-bind _ _ (Keeps-for_each _ _ add_interface-NoNewForeign) (λ _. Keeps-pure none))

    -- For a bridge with an index other than 0, reconciling its physical interfaces records no
    -- further port of the bridge as one that the daemon does not manage: a port that is recorded so
    -- afterwards was recorded so before.
    pub egress_interface_reconcile-records_managed :
        (olds news : List EgressInterface) (p : String)
        → port_entry br.name p
            (final (egress_interface_reconcile k br olds news s)).managed_bridge_ports
          ≡ some false
        → port_entry br.name p s.managed_bridge_ports ≡ some false
    egress_interface_reconcile-records_managed olds news =
        ((reconcile-NoNewForeign olds news).at s (record { were_foreign = λ p e. e })).were_foreign
