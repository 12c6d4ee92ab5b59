-- ===== src/Filtering/FirstPort.antt =====
-- The VLAN ids of the ports of a bridge after `bridgeVlanFilteringReconcile`
-- (pkg/server/bridgeconfig.go). The egress ports share one set of wanted ids, which the first of
-- them uses up; so it is the first one that gets what it is to have.
use bridge_operator.Prelude.{
  All, All-map, Bool, Bool-cases, List, [], arith, false, inl, inr, int_eq, nat_eq, none, ok, refl,
  some, string_eq, sym, true, ℕ, ◌&&◌, ◌++◌, ◌==◌, ◌||◌, ◌∙◌, ◌∷◌, ◌≡◌,
}
use bridge_operator.Egress.{is_nil}
use bridge_operator.Filtering.{
  NameSet, VidSet, bridge_vlan_filtering_reconcile, bridge_vlan_id_reconcile,
  egress_interface_name_set, enable_filtering, get_bridge_ports, int32, reconcile_ports,
  reconcile_vids, vlan_filtering, vlan_id_set,
}
use bridge_operator.Filtering.Entries.{
  GrantsVids, bridge_vlan_id_reconcile-has_id, carries, is_empty,
}
use bridge_operator.Filtering.Exact.{Carries, Carries-has_id}
use bridge_operator.Filtering.Plan.{DistinctVids, missing}
use bridge_operator.Filtering.Untouched.{bridge_vlan_id_reconcile-Safe, reconcile_ports-Safe}
use bridge_operator.Filtering.Wanted.{
  has-egress_interface_name_set, has-wanted, is_egress, wanted_by,
}
use bridge_operator.GoMap.{has}
use bridge_operator.Netlink.{
  BridgeVlanInfo, Kernel, Link, NetCall, bridge_device, bridge_vlan_add, bridge_vlan_del,
}
use bridge_operator.State.{State, deref, gets, net, netlink, pure, returned, ◌>>=◌}
use bridge_operator.State.Safe.{Safe, Safe-bind, Safe-pure, Safe-returned, safe_rules}
use bridge_operator.Types.{BridgeConfiguration, interface_eq, vlan_interface_eq}

-- The ports of a bridge, split at its first egress port. The entries of this port have distinct
-- ids, and no other egress port has its index.
pub record FirstEgress (config : BridgeConfiguration) (info : ℕ → List BridgeVlanInfo)
    (front : List Link) (port : Link) (back : List Link) : Type 0 where
  pub others_first : All (λ q. is_egress config q.name ≡ false) front
  pub named : is_egress config port.name ≡ true
  pub distinct : DistinctVids (info (int32 port.index))
  pub apart :
      All (λ q. is_egress config q.name ≡ true → (int32 q.index == int32 port.index) ≡ false) back

module _ {W : Type 0} (k : Kernel W) (grants : GrantsVids k) where
  open grants use {carries-add, carries-del}

  -- The port of the index `i` carries the id, or not.
  abbrev Says : ℕ → ℕ → Bool → State W → Type 0
  Says i v b s = carries k i v s.world ≡ b

  -- An egress port has another index.
  abbrev Apart : NameSet → ℕ → Link → Type 0
  Apart names i q = has q.name names ≡ true → (int32 q.index == i) ≡ false

  -- Calls for other ports.
  id_reconcile-Says :
      (i v : ℕ) (b : Bool) (link : Link) (info : ℕ → List BridgeVlanInfo) (vids : VidSet)
      → (int32 link.index == i) ≡ false
      → Safe (Says i v b) (bridge_vlan_id_reconcile k link info vids)
  unfolding netlink
  id_reconcile-Says i v b link info vids other =
      bridge_vlan_id_reconcile-Safe k link
        (λ vid p u. record {
          at = λ s h.
              let c = bridge_vlan_add link vid p u false true in
              (
                (k.perform c s.world).0,
                record s { calls = s.calls ++ net c ∷ []; world = (k.perform c s.world).1 },
                refl,
                ground (arith, carries-add link vid p u s.world i v, h, other),
              );
        })
        (λ vid p u. record {
          at = λ s h.
              let c = bridge_vlan_del link vid p u false true in
              (
                (k.perform c s.world).0,
                record s { calls = s.calls ++ net c ∷ []; world = (k.perform c s.world).1 },
                refl,
                ground (arith, carries-del link vid p u s.world i v, h, other),
              );
        })
        info vids

  module _ (names : NameSet) (info : ℕ → List BridgeVlanInfo) (i v : ℕ) (b : Bool) where
    reconcile_ports-Says :
        (ports : List Link) (vids : VidSet)
        → All (Apart names i) ports
        → Safe (Says i v b) (reconcile_ports k names info ports vids)
    unfolding reconcile_ports
    reconcile_ports-Says [] vids h = search safe_rules
    reconcile_ports-Says (port ∷ ports) vids h = elim (Bool-cases (has port.name names)) [
      | inl egress ↦ rw egress (
          Safe-bind (bridge_vlan_id_reconcile k port info vids) _
            (id_reconcile-Says i v b port info vids (h.0 egress))
            (λ left. reconcile_ports-Says ports left h.1))
      | inr other ↦
          rw other
            (Safe-bind (pure vids) _ (Safe-pure vids) (λ left. reconcile_ports-Says ports left h.1))
    ]

  netlink_returns : (c : NetCall) → Safe (λ _. Unit {0}) (netlink k c)
  unfolding netlink
  netlink_returns c = record {
    at = λ s h. (
      (k.perform c s.world).0,
      record s { calls = s.calls ++ net c ∷ []; world = (k.perform c s.world).1 },
      refl,
      tt,
    );
  }

  reconcile_ports_returns :
      (names : NameSet) (info : ℕ → List BridgeVlanInfo) (ports : List Link) (vids : VidSet)
      → (s : State W) → (t : State W) × (reconcile_ports k names info ports vids s ≡ returned tt t)
  reconcile_ports_returns names info ports vids s =
      let (a, t, e, g) =
        (reconcile_ports-Safe k {P = λ _. Unit {0}} (λ br on. netlink_returns _)
            (λ l vid a b c d. netlink_returns _) (λ l vid a b c d. netlink_returns _) names info
            ports vids).at
          s tt in
      (t, e)

  first_port :
      (names : NameSet) (info : ℕ → List BridgeVlanInfo) (vids : VidSet) (s : State W)
      → (front : List Link) (port : Link) (back : List Link) → k.bridge_vlan_list s.world ≡ ok info
      → All (λ q. has q.name names ≡ false) front
      → has port.name names ≡ true
      → DistinctVids (info (int32 port.index))
      → All (Apart names (int32 port.index)) back
      → (t : State W) × (reconcile_ports k names info (front ++ port ∷ back) vids s ≡ returned tt t)
        × ((v : ℕ)
            → carries k (int32 port.index) v t.world
              ≡ (has v vids || (is_empty (missing (info (int32 port.index)) vids) && v == 1)))
  unfolding reconcile_ports pure ◌>>=◌
  first_port names info vids s [] port back listed others egress distinct apart =
      let (t, e, c) = bridge_vlan_id_reconcile-has_id k grants port info vids s listed distinct in
      let left = missing (info (int32 port.index)) vids in
      let (u, e') = reconcile_ports_returns names info back left t in
      (
        u,
        rw (egress, e) e',
        λ v.
            Safe-returned (reconcile_ports-Says names info (int32 port.index) v _ back left apart)
              (c v) e',
      )
  first_port names info vids s (q ∷ front) port back listed others egress distinct apart =
      rw others.0
        (first_port names info vids s front port back listed others.1 egress distinct apart)

  -- If the egress ports of a bridge that filters VLANs are as `FirstEgress` says, and the kernel
  -- carries out the calls for VLAN ids, then `bridgeVlanFilteringReconcile` returns no error, and
  -- the first egress port carries exactly the port VLAN ids of the ports that the configuration
  -- does not name, and VLAN 1 too if it carried all of them before. A port with an index that no
  -- egress port of the bridge has carries what it carried.
  pub bridge_vlan_filtering_reconcile-Carries :
      (config : BridgeConfiguration) (br : Link) (info : ℕ → List BridgeVlanInfo) (s : State W)
      → (front : List Link) (port : Link) (back : List Link) → br.device ≡ bridge_device (some true)
      → k.bridge_vlan_list s.world ≡ ok info
      → get_bridge_ports k br s.world ≡ front ++ port ∷ back
      → FirstEgress config info front port back
      → (t : State W) × (bridge_vlan_filtering_reconcile k config (some br) s ≡ returned none t)
        × Carries k
            (int32 port.index)
            (wanted_by (is_egress config) info (front ++ port ∷ back))
            s.world
            t.world
        × ((i v : ℕ)
            → All
                (λ q. is_egress config q.name ≡ true → (int32 q.index == i) ≡ false)
                (front ++ port ∷ back)
            → carries k i v t.world ≡ carries k i v s.world)
  unfolding bridge_vlan_filtering_reconcile vlan_filtering enable_filtering reconcile_vids deref
      gets pure is_nil ◌>>=◌
  bridge_vlan_filtering_reconcile-Carries config br info s front port back device listed ports
        first =
      let names = egress_interface_name_set config in
      let vids = vlan_id_set names info (front ++ port ∷ back) [] in
      let (t, e, c) =
        first_port names info vids s front port back listed
          (All-map _ _ front (λ q h. has-egress_interface_name_set config q.name ∙ h)
            first.others_first)
          (has-egress_interface_name_set config port.name ∙ first.named) first.distinct
          (All-map _ _ back (λ q f h. f (sym (has-egress_interface_name_set config q.name) ∙ h))
            first.apart) in
      (
        t,
        rw (device, listed, ports, e) refl,
        Carries-has_id k (int32 port.index) info vids _ s.world t.world listed c
            (has-wanted config info (front ++ port ∷ back)),
        λ i v apart.
            Safe-returned
              (reconcile_ports-Says names info i v (carries k i v s.world) (front ++ port ∷ back)
                vids
                (All-map _ _ (front ++ port ∷ back)
                  (λ q f h. f (sym (has-egress_interface_name_set config q.name) ∙ h)) apart))
              refl e,
      )
