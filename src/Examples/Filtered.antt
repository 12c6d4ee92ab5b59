-- ===== src/Examples/Filtered.antt =====
-- A small kernel that keeps the VLAN ids of ports, and a bridge with two ports on it.
use bridge_operator.Prelude.{
  All, Bool-cases, Error, List, Option, [], ap, arith, err, false, if◌then◌else◌, inl, inr, int_eq,
  keep, nat_eq, none, not, not_found, ok, refl, some, string_eq, true, ℕ, ◌&&◌, ◌==◌, ◌∷◌, ◌≡◌,
}
use bridge_operator.Egress.Masters.{master}
use bridge_operator.Examples.World.{World, config, default_vlan, find_name, interface, link}
use bridge_operator.Filtering.{bridge_vlan_filtering_reconcile, get_bridge_ports, int32}
use bridge_operator.Filtering.Entries.{GrantsVids, carries, lists}
use bridge_operator.Filtering.Exact.{Carries}
use bridge_operator.Filtering.FirstPort.{FirstEgress, bridge_vlan_filtering_reconcile-Carries}
use bridge_operator.Filtering.Wanted.{is_egress, wanted_by}
use bridge_operator.Netlink.{
  BridgeVlanInfo, Kernel, Link, NetCall, bridge_device, bridge_vlan_add, bridge_vlan_del,
  other_device,
}
use bridge_operator.State.{State, returned}
use bridge_operator.Tracker.{name_eq}
use bridge_operator.Types.{BridgeConfiguration, interface_eq, vlan_interface_eq}

record VlanWorld : Type 0 where
  links : World
  vids : ℕ → List BridgeVlanInfo

abbrev without : ℕ → List BridgeVlanInfo → List BridgeVlanInfo
without v is = keep (λ i. not (i.vid == v)) is

abbrev at_port : ℕ → List BridgeVlanInfo → VlanWorld → VlanWorld
at_port i is w = record w { vids = λ j. if i == j then is else w.vids j }

-- Other calls change nothing.
abbrev vlan_effect : NetCall → VlanWorld → Option Error × VlanWorld
vlan_effect (bridge_vlan_add l vid pvid untagged self master) w =
    let e : BridgeVlanInfo = record { vid = vid; port_vid = pvid; egress_untag = untagged } in
    (none, at_port (int32 l.index) (e ∷ without vid (w.vids (int32 l.index))) w)
vlan_effect (bridge_vlan_del l vid pvid untagged self master) w =
    (none, at_port (int32 l.index) (without vid (w.vids (int32 l.index))) w)
vlan_effect _ w = (none, w)

abbrev vlan_kernel : Kernel VlanWorld
vlan_kernel = record {
  link_list = λ w. ok w.links;
  link_by_name = λ n w. find_name n w.links;
  link_by_index = λ i w. err not_found;
  bridge_vlan_list = λ w. ok w.vids;
  perform = vlan_effect;
  ensure_index = λ l w. l;
}

lists-without :
    (v vid : ℕ) (is : List BridgeVlanInfo)
    → lists v (without vid is) ≡ (not (vid == v) && lists v is)
unfolding keep
lists-without v vid [] = ground arith
lists-without v vid (i ∷ is) = ground (arith, lists-without v vid is)

vlan_kernel-GrantsVids : GrantsVids vlan_kernel
unfolding carries
vlan_kernel-GrantsVids = record {
  carries-add = λ link vid p u w i v. elim (Bool-cases (int32 link.index == i)) [
    | inl same ↦ rw same (
        ground (
          arith,
          same,
          lists-without v vid (w.vids (int32 link.index)),
          ap (λ j. lists v (w.vids j)) ((nat_eq.beq_iff (int32 link.index) i).0 same),
        ))
    | inr other ↦ rw other refl
  ];
  carries-del = λ link vid p u w i v. elim (Bool-cases (int32 link.index == i)) [
    | inl same ↦ rw same (
        ground (
          arith,
          same,
          lists-without v vid (w.vids (int32 link.index)),
          ap (λ j. lists v (w.vids j)) ((nat_eq.beq_iff (int32 link.index) i).0 same),
        ))
    | inr other ↦ rw other refl
  ];
}

abbrev filtering_bridge : Link
filtering_bridge = link "br0" 7 0 (bridge_device (some true))

abbrev pod_port : Link
pod_port = link "veth0" 3 7 (other_device "veth")

abbrev egress_port : Link
egress_port = link "eth0" 2 7 (other_device "device")

-- The port of a pod is in VLAN 10, the egress port in VLAN 1.
abbrev port_vids : ℕ → List BridgeVlanInfo
port_vids i =
    (if i == 3 then record { vid = 10; port_vid = true; egress_untag = true } else default_vlan)
    ∷ []

abbrev filtered : State VlanWorld
filtered = record {
  hostname = "node1";
  managed_bridges = [];
  managed_bridge_ports = [];
  calls = [];
  world = record { links = filtering_bridge ∷ pod_port ∷ egress_port ∷ []; vids = port_vids };
}

abbrev trunk : BridgeConfiguration
trunk = config "br0" (interface "eth0" ∷ []) []

trunk-FirstEgress : FirstEgress trunk port_vids (pod_port ∷ []) egress_port []
trunk-FirstEgress = record {
  others_first = (refl, tt);
  named = refl;
  distinct = (tt, tt);
  apart = tt;
}

filtered_example :
    (t : State VlanWorld) × (bridge_vlan_filtering_reconcile vlan_kernel trunk
        (some filtering_bridge)
        filtered
      ≡ returned none t)
    × Carries vlan_kernel 2
        (wanted_by (is_egress trunk) port_vids (pod_port ∷ egress_port ∷ []))
        filtered.world
        t.world
    × ((i v : ℕ)
        → All
            (λ q. is_egress trunk q.name ≡ true → (int32 q.index == i) ≡ false)
            (pod_port ∷ egress_port ∷ [])
        → carries vlan_kernel i v t.world ≡ carries vlan_kernel i v filtered.world)
unfolding get_bridge_ports keep
filtered_example =
    bridge_vlan_filtering_reconcile-Carries vlan_kernel vlan_kernel-GrantsVids trunk
      filtering_bridge port_vids filtered (pod_port ∷ []) egress_port [] refl refl refl
      trunk-FirstEgress

-- VLAN 10 is wanted.
wanted_vid : wanted_by (is_egress trunk) port_vids (pod_port ∷ egress_port ∷ []) 10 ≡ true
wanted_vid = refl
