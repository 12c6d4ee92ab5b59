-- ===== src/Bridge/Unconfigure.antt =====
-- When `bridgeUnconfigured` deletes the bridge.
use mathlib.Core.Path.{subst}
use text.Mathlib.TextEquality.{eq_iff}
use bridge_operator.Prelude.{
  All, All-map, Bool, Error, List, Option, Option-cases, Result, String, [], arith, err, false,
  if◌then◌else◌, inl, inr, int_eq, nat_eq, none, ok, refl, some, string_eq, sym, true, ◌∷◌, ◌≡◌,
  ◌≢◌,
}
use bridge_operator.Bridge.{all_managed, bridge_unconfigured, delete_managed, unconfigure_found}
use bridge_operator.Egress.{difference, egress_interface_reconcile, is_nil, remove_interface}
use bridge_operator.Egress.Rules.{All-difference, Keeps-remove_interface}
use bridge_operator.Egress.Spares.{IsNamed, Spared, Spares, reconcile-Spared}
use bridge_operator.GoMap.{GoMap, lookup}
use bridge_operator.Netlink.{Kernel, Link, NetCall, link_set_no_master}
use bridge_operator.Ports.{is_port_managed, remove_port}
use bridge_operator.Ports.Laws.{port_entry, port_entry-remove_port_management}
use bridge_operator.State.{State, final, for_each, gets, modify_ports, netlink, pure, ◌>>=◌}
use bridge_operator.State.Issues.{Issues, Issues-refl}
use bridge_operator.State.Keeps.{
  Keeps, Keeps-bind, Keeps-for_each-All, Keeps-if, Keeps-pure, bind_cong, continue-Keeps,
  continue_to, if_cong, keeps_rules,
}
use bridge_operator.Types.{
  BridgeConfiguration, EgressInterface, EgressVlanInterface, interface_eq, vlan_interface_eq,
}
use bridge_operator.Vlan.{egress_vlan_interface_reconcile, remove_vlan_interface}
use bridge_operator.Vlan.Spares.{Keeps-remove_vlan_interface, vlan_reconcile-Issues}
use bridge_operator.VlanName.{generate_egress_vlan_interface_name}

not_all_managed :
    (n : String) (ports : GoMap String Bool)
    → lookup n ports ≡ some false
    → all_managed ports ≡ false
unfolding lookup all_managed
not_all_managed n [] h = cc
not_all_managed n ((port, managed) ∷ ports) h = ground (arith, not_all_managed n ports)

module _ {W : Type 0} (k : Kernel W) (b n : String) where
  -- The port `n` of `b` is recorded as somebody else's.
  abbrev IsForeign : State W → Type 0
  IsForeign t = port_entry b n t.managed_bridge_ports ≡ some false

  netlink-IsForeign : (c : NetCall) → Keeps IsForeign (netlink k c)
  unfolding netlink
  netlink-IsForeign c = record { at = λ t h. h }

  remove_port-IsForeign :
      (br port : String) → port ≢ n → Keeps {W = W} IsForeign (remove_port br port)
  unfolding remove_port modify_ports
  remove_port-IsForeign br port other = record {
    at = λ t h. ground (
      arith,
      h,
      eq_iff port n,
      port_entry-remove_port_management br port b n t.managed_bridge_ports,
    );
  }

  egress-IsForeign :
      (br : Link) (vs : List EgressInterface)
      → All (λ v. v.name ≢ n) vs
      → Keeps IsForeign (egress_interface_reconcile k br vs [])
  unfolding egress_interface_reconcile difference
  egress-IsForeign br vs others =
      Keeps-bind (for_each (difference vs []) (remove_interface k br)) _
        (Keeps-for_each-All (difference vs []) (remove_interface k br) (
          All-difference _ vs [] (
            All-map _ _ vs
              (λ v other.
                Keeps-remove_interface k br v (λ link. netlink-IsForeign (link_set_no_master link))
                  (remove_port-IsForeign br.name v.name other))
              others)))
        (λ _. unfold for_each in search keeps_rules)

  vlan-IsForeign :
      (br : Link) (vs : List EgressVlanInterface)
      → All (λ v. generate_egress_vlan_interface_name v ≢ n) vs
      → Keeps IsForeign (egress_vlan_interface_reconcile k br vs [])
  unfolding egress_vlan_interface_reconcile difference
  vlan-IsForeign br vs others =
      Keeps-bind (for_each (difference vs []) (remove_vlan_interface k br)) _
        (Keeps-for_each-All (difference vs []) (remove_vlan_interface k br) (
          All-difference _ vs [] (
            All-map _ _ vs
              (λ v other.
                Keeps-remove_vlan_interface k br v netlink-IsForeign
                  (remove_port-IsForeign br.name (generate_egress_vlan_interface_name v) other))
              others)))
        (λ _. unfold for_each in search keeps_rules)

  foreign_keeps_bridge :
      (br : Link) (t : State W)
      → IsForeign t
      → (gets (λ s. lookup b s.managed_bridge_ports) >>= delete_managed k br) t ≡ pure none t
  unfolding gets port_entry delete_managed pure ◌>>=◌
  foreign_keeps_bridge br t h = elim (Option-cases (lookup b t.managed_bridge_ports)) [
    | inl e ↦ cc
    | inr (ports, e) ↦ rw e (rw (not_all_managed n ports (ground (arith, h, e))))
  ]

-- A configuration that does not name the interface or the VLAN interface `n`.
abbrev pub DoesNotName : String → BridgeConfiguration → Type 0
DoesNotName n config =
    All (λ v. v.name ≢ n) config.spec.egress_interfaces
    × All (λ v. generate_egress_vlan_interface_name v ≢ n) config.spec.egress_vlan_interfaces

module _ {W : Type 0} (k : Kernel W) (n : String) (config : BridgeConfiguration) where
  unconfigure_found-foreign :
      (r : Result Link) (t : State W)
      → DoesNotName n config
      → port_entry config.metadata.name n t.managed_bridge_ports ≡ some false
      → unconfigure_found k config true r t ≡ unconfigure_found k config false r t
  unfolding unconfigure_found
  unconfigure_found-foreign (err e) t others h = refl
  unconfigure_found-foreign (ok br) t others h =
      bind_cong (IsForeign k config.metadata.name n) _ _ _ t
        (egress-IsForeign k config.metadata.name n br config.spec.egress_interfaces others.0) h
        (λ e u hu. if_cong (is_nil e) _ _ _ u (
          bind_cong (IsForeign k config.metadata.name n) _ _ _ u
            (vlan-IsForeign k config.metadata.name n br config.spec.egress_vlan_interfaces others.1)
            hu
            (λ e' v hv.
              if_cong (is_nil e') _ _ _ v (foreign_keeps_bridge k config.metadata.name n br v hv))))

  same_as_unmanaged :
      (s : State W)
      → DoesNotName n config
      → port_entry config.metadata.name n s.managed_bridge_ports ≡ some false
      → bridge_unconfigured k config true s ≡ bridge_unconfigured k config false s
  unfolding bridge_unconfigured gets ◌>>=◌
  same_as_unmanaged s others h =
      unconfigure_found-foreign (k.link_by_name config.metadata.name s.world) s others h

module _ {W : Type 0} (k : Kernel W) (named : IsNamed k) (config : BridgeConfiguration) where
  -- The end of the reconcile for a bridge that is not managed.
  vlans_unmanaged-Issues :
      (n : String) (br : Link) (s : State W) (b : Bool) (e : Option Error) (t : State W)
      → Spared br.name n s t
      → Issues (Spares n) s (
          final (
            (if b
                then (do
                  e' ← egress_vlan_interface_reconcile k br config.spec.egress_vlan_interfaces []
                  if is_nil e' then pure none else pure e')
                else pure e)
              t))
  unfolding pure ◌>>=◌
  vlans_unmanaged-Issues n br s true e t h =
      let olds = config.spec.egress_vlan_interfaces in
      continue-Keeps {P = Issues (Spares n) s} (egress_vlan_interface_reconcile k br olds [] t) _
        (vlan_reconcile-Issues k named br n s olds [] tt t h)
        (λ e'. Keeps-if (is_nil e') _ _ (Keeps-pure none) (Keeps-pure e'))
  vlans_unmanaged-Issues n br s false e t h = h.issues

  -- What is done for a bridge that is not managed.
  found_unmanaged-Issues :
      (n : String) (r : Result Link) (s : State W)
      → ((br : Link) → r ≡ ok br → is_port_managed br.name n s.managed_bridge_ports ≡ false)
      → Issues (Spares n) s (final (unconfigure_found k config false r s))
  unfolding unconfigure_found pure ◌>>=◌
  found_unmanaged-Issues n (err e) s no_port = Issues-refl s
  found_unmanaged-Issues n (ok br) s no_port =
      let olds = config.spec.egress_interfaces in
      continue_to (Spared br.name n s) (Issues (Spares n) s)
        (egress_interface_reconcile k br olds [] s) _ (λ t h. h.issues)
        ((reconcile-Spared k named br n s olds [] tt).at s
          (record { unmanaged = no_port br refl; issues = Issues-refl s }))
        (λ e t h. vlans_unmanaged-Issues n br s (is_nil e) e t h)

  -- The kernel looks links up by their names. If a port of the bridge is recorded as not managed, and
  -- the configuration does not name it, then `bridgeUnconfigured` does with a managed bridge exactly
  -- what it does with one that is not managed; and unless the bridge is recorded as a port of itself
  -- that the daemon manages, it makes no call that deletes a link of the name of the bridge
  -- (`LinkDel`), takes the master from one or gives it another.
  pub bridge_unconfigured-foreign_port :
      (n : String) (s : State W)
      → DoesNotName n config
      → port_entry config.metadata.name n s.managed_bridge_ports ≡ some false
      → is_port_managed config.metadata.name config.metadata.name s.managed_bridge_ports ≡ false
      → (bridge_unconfigured k config true s ≡ bridge_unconfigured k config false s)
        × Issues (Spares config.metadata.name) s (final (bridge_unconfigured k config true s))
  unfolding bridge_unconfigured gets ◌>>=◌
  bridge_unconfigured-foreign_port n s others h no_port =
      let same = same_as_unmanaged k n config s others h in
      (
        same,
        subst (λ o. Issues (Spares config.metadata.name) s (final o)) (sym same)
            (found_unmanaged-Issues config.metadata.name
              (k.link_by_name config.metadata.name s.world) s
              (λ br found. rw (named config.metadata.name s.world br found) no_port)),
      )
