-- ===== src/Egress/Spares.antt =====
-- The interfaces of others in `egressInterfaceReconcile` (pkg/server/bridgeconfig.go).
use text.Mathlib.TextEquality.{eq_iff}
use bridge_operator.Prelude.{
  All, All-map, Bool, Bool-cases, List, String, ap, arith, false, inl, inr, none, ok, refl, sym,
  true, ◌∙◌, ◌≡◌, ◌≢◌, string_eq, int_eq, nat_eq,
}
use bridge_operator.Egress.{
  add_interface, difference, egress_interface_reconcile, release_port, remove_interface,
}
use bridge_operator.Egress.Rules.{All-difference, Keeps-add_found, Keeps-unset_master}
use bridge_operator.Netlink.{Kernel, Link, NetCall, link_del, link_set_master, link_set_no_master}
use bridge_operator.Ports.{
  is_port_managed, remove_port, remove_port_management, set_port, set_port_management,
}
use bridge_operator.Ports.Laws.{
  is_port_managed-port_entry, port_entry-remove_port_management, port_entry-set_port_management,
}
use bridge_operator.State.{Call, State, for_each, gets, modify_ports, net, netlink, ◌>>=◌}
use bridge_operator.State.Issues.{Issues, Issues-quiet, netlink-Issues}
use bridge_operator.State.Keeps.{
  Keeps, Keeps-bind, Keeps-for_each, Keeps-for_each-All, Keeps-pure, keeps_rules,
}
use bridge_operator.Types.{EgressInterface, interface_eq, vlan_interface_eq}

-- The call neither takes the master from a link of this name, nor deletes one, nor gives it another
-- master.
abbrev pub Spares : String → Call → Type 0
Spares n (net (link_set_no_master link)) = link.name ≢ n
Spares n (net (link_del link)) = link.name ≢ n
Spares n (net (link_set_master link br)) = link.name ≢ n
Spares n _ = Unit {0}

-- `LinkByName` returns a link of the name that was asked for.
abbrev pub IsNamed : {W : Type 0} → Kernel W → Type 0
IsNamed {W} k = (n : String) (w : W) (link : Link) → k.link_by_name n w ≡ ok link → link.name ≡ n

-- On the way from `s` to `t` the port `n` of `b` was spared, and it is still not managed.
pub record Spared {W : Type 0} (b n : String) (s t : State W) : Type 0 where
  pub unmanaged : is_port_managed b n t.managed_bridge_ports ≡ false
  pub issues : Issues (Spares n) s t

module _ {W : Type 0} (b n : String) (s : State W) where
  pub netlink-Spared :
      (k : Kernel W) (c : NetCall) → Spares n (net c) → Keeps (Spared b n s) (netlink k c)
  unfolding netlink
  netlink-Spared k c spares = record {
    at = λ t h. record {
      unmanaged = h.unmanaged;
      issues = (netlink-Issues s k c spares).at t h.issues;
    };
  }

  pub remove_port-Spared : (br port : String) → Keeps (Spared b n s) (remove_port br port)
  unfolding remove_port modify_ports
  remove_port-Spared br port = record {
    at = λ t h. record {
      unmanaged = ground (
        arith,
        h.unmanaged,
        is_port_managed-port_entry b n t.managed_bridge_ports,
        is_port_managed-port_entry b n (remove_port_management br port t.managed_bridge_ports).1,
        port_entry-remove_port_management br port b n t.managed_bridge_ports,
      );
      issues = Issues-quiet _ h.issues refl;
    };
  }

-- The interface `n` is none of these.
abbrev pub Others : String → List EgressInterface → Type 0
Others n vs = All (λ v. v.name ≢ n) vs

module _ {W : Type 0} (k : Kernel W) (named : IsNamed k) (br : Link) (n : String)
    (s : State W) where
  -- A port that is managed is another one than `n`.
  pub managed_is_other :
      (port : String) (t : State W)
      → Spared br.name n s t
      → is_port_managed br.name port t.managed_bridge_ports ≡ true
      → (link : Link) → k.link_by_name port t.world ≡ ok link
      → link.name ≢ n
  managed_is_other port t h managed link found e =
      let same = sym (named port t.world link found) ∙ e in
      cc (h.unmanaged, managed, ap (λ p. is_port_managed br.name p t.managed_bridge_ports) same)

  release_port-Spared : (port : String) → Keeps (Spared br.name n s) (release_port k br port)
  unfolding release_port gets ◌>>=◌
  release_port-Spared port = record {
    at = λ t h. elim (Bool-cases (is_port_managed br.name port t.managed_bridge_ports)) [
      | inl managed ↦ rw managed (
          (Keeps-unset_master k (k.link_by_name port t.world) (λ link found.
              netlink-Spared br.name n s k (link_set_no_master link)
                (managed_is_other port t h managed link found))).at
            t h)
      | inr unmanaged ↦ rw unmanaged ((Keeps-pure {P = Spared br.name n s} true).at t h)
    ];
  }

  remove_interface-Spared :
      (v : EgressInterface) → Keeps (Spared br.name n s) (remove_interface k br v)
  unfolding remove_interface
  remove_interface-Spared v =
      search (keeps_rules, release_port-Spared, remove_port-Spared br.name n s)

  pub removals-Spared :
      (vs : List EgressInterface) → Keeps (Spared br.name n s) (for_each vs (remove_interface k br))
  removals-Spared vs = Keeps-for_each vs _ remove_interface-Spared

  set_port-Spared :
      (port : String) (managed : Bool)
      → port ≢ n
      → Keeps (Spared br.name n s) (set_port br.name port managed)
  unfolding set_port modify_ports
  set_port-Spared port managed other = record {
    at = λ t h. record {
      unmanaged = ground (
        arith,
        h.unmanaged,
        other,
        eq_iff port n,
        is_port_managed-port_entry br.name n t.managed_bridge_ports,
        is_port_managed-port_entry br.name n
            (set_port_management br.name port managed t.managed_bridge_ports).1,
        port_entry-set_port_management br.name port br.name n t.managed_bridge_ports managed,
      );
      issues = Issues-quiet _ h.issues refl;
    };
  }

  add_interface-Spared :
      (v : EgressInterface) → v.name ≢ n → Keeps (Spared br.name n s) (add_interface k br v)
  add_interface-Spared v other =
      Keeps-add_found k br v
        (λ link w found.
          netlink-Spared br.name n s k (link_set_master link br)
            (λ same. other (sym (named v.name w link found) ∙ same)))
        (λ managed. set_port-Spared v.name managed other)

  pub reconcile-Spared :
      (olds news : List EgressInterface)
      → Others n news
      → Keeps (Spared br.name n s) (egress_interface_reconcile k br olds news)
  unfolding egress_interface_reconcile
  reconcile-Spared olds news away = Keeps-bind _ _ (removals-Spared (difference olds news)) (λ _.
      Keeps-bind _ _
        (Keeps-for_each-All (difference news olds) _ (
          All-map _ _ (difference news olds) add_interface-Spared
            (All-difference (λ v. v.name ≢ n) news olds away)))
        (λ _. Keeps-pure none))
