-- ===== src/Bridge/Deletes.antt =====
-- When `bridgeUnconfigured` (pkg/server/bridgeconfig.go) deletes the bridge.
use mathlib.Core.Path.{subst}
use bridge_operator.Prelude.{
  All, Bool, Bool-cases, Option, Option-cases, String, [], arith, false, inl, inr, int_eq, nat_eq,
  none, ok, refl, some, string_eq, sym, true, ◌∷◌, ◌≡◌, ◌≢◌, ◌⊎◌,
}
use bridge_operator.Bridge.{all_managed, bridge_unconfigured, delete_managed, unconfigure_found}
use bridge_operator.Bridge.Forgotten.{
  Harmless, Known, Left, interfaces_forgotten, names-Harmless, vlan_names-Harmless, vlans_forgotten,
}
use bridge_operator.Egress.{is_nil}
use bridge_operator.Filtering.Wanted.{is_egress, names_vlan}
use bridge_operator.GoMap.{GoMap, has, lookup}
use bridge_operator.GoMap.Laws.{lookup-All}
use bridge_operator.Netlink.{Kernel, Link, link_del}
use bridge_operator.Ports.Foreign.{KnownBridge}
use bridge_operator.Ports.Laws.{port_entry}
use bridge_operator.State.{Ports, State, gets, netlink, pure, ◌>>=◌}
use bridge_operator.Types.{BridgeConfiguration, interface_eq, vlan_interface_eq}
use bridge_operator.VlanName.{generate_egress_vlan_interface_name}

all_managed_of :
    (ports : GoMap String Bool) → All (λ e. e.1 ≡ true) ports → all_managed ports ≡ true
unfolding all_managed
all_managed_of [] h = refl
all_managed_of ((p, b) ∷ ports) h = ground (arith, h.0, all_managed_of ports h.1)

-- Every port of the bridge that is recorded as somebody else's is an interface of the configuration.
abbrev pub OthersNamed : BridgeConfiguration → Ports → Type 0
OthersNamed config m =
    (n : String) → port_entry config.metadata.name n m ≡ some false → is_egress config n ≡ true

false_or_not : (o : Option Bool) → (o ≡ some false) ⊎ (o ≢ some false)
false_or_not none = inr (λ e. cc)
false_or_not (some true) = inr (λ e. cc)
false_or_not (some false) = inl refl

module _ {W : Type 0} (k : Kernel W) where
  only_managed :
      (b : String) (t : State W)
      → Known b t
      → ((n : String) → Harmless b n t)
      → (ports : GoMap String Bool) × (lookup b t.managed_bridge_ports ≡ some ports)
        × (all_managed ports ≡ true)
  unfolding has port_entry
  only_managed b t known harmless = elim (Option-cases (lookup b t.managed_bridge_ports)) [
    | inl gone ↦ absurd (ground (arith, known.known, gone))
    | inr (ports, found) ↦ (
      ports,
      found,
      all_managed_of ports (
          lookup-All (λ e. e.1 ≡ true) ports (known.once ports found)
            (λ n v h. is_true n v h (harmless n) found)),
    )
  ]
    where
      is_true :
          {ports : GoMap String Bool} (n : String) (v : Bool)
          → lookup n ports ≡ some v
          → Harmless b n t
          → lookup b t.managed_bridge_ports ≡ some ports
          → v ≡ true
      is_true n true h harm found = refl
      is_true n false h harm found = absurd (harm (rw (port_entry, found) h))

  -- After both parts no port is somebody else's.
  none_foreign :
      (config : BridgeConfiguration) (b : String) (s t u : State W)
      → Left b s t
      → Left b t u
      → All (λ v. Harmless b v.name t) config.spec.egress_interfaces
      → All
          (λ v. Harmless b (generate_egress_vlan_interface_name v) u)
          config.spec.egress_vlan_interfaces
      → ((n : String)
          → port_entry b n s.managed_bridge_ports ≡ some false
          → is_egress config n ≡ true)
      → (n : String) → Harmless b n u
  none_foreign config b s t u left left' ifs vls others n foreign =
      let named = others n (still n foreign) in
      elim (Bool-cases (names_vlan n config.spec.egress_vlan_interfaces)) [
        | inl v ↦ vlan_names-Harmless b n config.spec.egress_vlan_interfaces u vls v foreign
        | inr nv ↦
            left'.stays n
              (names-Harmless b n config.spec.egress_interfaces t ifs (ground (arith, named, nv)))
              foreign
      ]
    where
      -- What is somebody else's was so before.
      still :
          (n : String)
          → port_entry b n u.managed_bridge_ports ≡ some false
          → port_entry b n s.managed_bridge_ports ≡ some false
      still n foreign = elim (false_or_not (port_entry b n s.managed_bridge_ports)) [
        | inl was ↦ was
        | inr was_not ↦ absurd (left'.stays n (left.stays n was_not) foreign)
      ]

  -- If the bridge is found, the table has it with each port once, and each port of it that is
  -- recorded as not managed is an interface of the configuration, then `bridgeUnconfigured` of a
  -- managed bridge ends with the call that deletes it, and returns what this call returns.
  pub bridge_unconfigured-deletes :
      (config : BridgeConfiguration) (br : Link) (s : State W)
      → k.link_by_name config.metadata.name s.world ≡ ok br
      → br.name ≡ config.metadata.name
      → KnownBridge config.metadata.name s.managed_bridge_ports
      → OthersNamed config s.managed_bridge_ports
      → (t : State W) × (bridge_unconfigured k config true s ≡ netlink k (link_del br) t)
  unfolding bridge_unconfigured unconfigure_found delete_managed is_nil netlink gets pure ◌>>=◌
  bridge_unconfigured-deletes config br s found named known others =
      let b = config.metadata.name in
      let (t, e, left, ifs) =
        interfaces_forgotten k br config.spec.egress_interfaces s
          (subst (λ x. KnownBridge x s.managed_bridge_ports) (sym named) known) in
      let (u, e', left', vls) =
        vlans_forgotten k br config.spec.egress_vlan_interfaces t left.known in
      let (ports, found_ports, managed) = only_managed br.name u left'.known (
        none_foreign config br.name s t u left left' ifs vls (
          subst
            (λ x.
              (n : String)
              → port_entry x n s.managed_bridge_ports ≡ some false
              → is_egress config n ≡ true)
            (sym named) others)) in
      let here_they_are : lookup b u.managed_bridge_ports ≡ some ports =
        subst (λ x. lookup x u.managed_bridge_ports ≡ some ports) named found_ports in
      (u, rw (found, e, e', here_they_are, managed) refl)
