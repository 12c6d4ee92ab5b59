-- ===== src/Filtering.antt =====
-- `bridgeVlanIDReconcile`, `bridgeVlanFilteringReconcile` and `getBridgePorts`
-- (pkg/server/bridgeconfig.go): the VLAN ids that a bridge's egress ports carry.
pub mod Plan
pub mod Entries
pub mod Wanted
pub mod SharedSet
pub mod Untouched
pub mod Exact
pub mod FirstPort
use bridge_operator.Prelude.{
  Bool, Error, List, Option, Result, String, [], err, failed, false, if◌then◌else◌, int_eq, keep,
  nat_eq, none, ok, some, string_eq, true, ℕ, ◌%◌, ◌==◌, ◌^◌, ◌∷◌,
}
use bridge_operator.Egress.{is_nil}
use bridge_operator.GoMap.{GoMap, has, keys, put, remove}
use bridge_operator.Netlink.{
  BridgeVlanInfo, Kernel, Link, bridge_device, bridge_set_vlan_filtering, bridge_vlan_add,
  bridge_vlan_del, other_device, vlan_device,
}
use bridge_operator.State.{M, deref, for_each, gets, netlink, pure, ◌>>=◌, ◌>>◌}
use bridge_operator.Types.{
  BridgeConfiguration, EgressInterface, EgressVlanInterface, interface_eq, vlan_interface_eq,
}
use bridge_operator.VlanName.{generate_egress_vlan_interface_name}

-- `map[uint16]struct{}` and `map[string]struct{}`.
abbrev pub VidSet : Type 0
VidSet = GoMap ℕ (Unit {0})

abbrev pub NameSet : Type 0
NameSet = GoMap String (Unit {0})

-- `int32(index)`, as the bit pattern.
abbrev pub int32 : ℕ → ℕ
int32 n = n % 2 ^ 32

-- `bridge.(*netlink.Bridge).VlanFiltering`: none where the assertion fails.
unfoldable pub vlan_filtering : Link → Option (Option Bool)
vlan_filtering l = elim l.device [
  | bridge_device f ↦ some f
  | vlan_device _ _ ↦ none
  | other_device _ ↦ none
]

-- `egressInterfaceNameSet`.
unfoldable pub interface_names : List EgressInterface → NameSet → NameSet
interface_names [] names = names
interface_names (v ∷ vs) names = interface_names vs (put v.name tt names)

unfoldable pub vlan_names : List EgressVlanInterface → NameSet → NameSet
vlan_names [] names = names
vlan_names (v ∷ vs) names = vlan_names vs (put (generate_egress_vlan_interface_name v) tt names)

unfoldable pub egress_interface_name_set : BridgeConfiguration → NameSet
unfolding interface_names vlan_names
egress_interface_name_set config =
    vlan_names config.spec.egress_vlan_interfaces (interface_names config.spec.egress_interfaces [])

-- `vlanIDSet`: the port VLAN ids of the ports that are no egress interface.
unfoldable pub add_port_vids : List BridgeVlanInfo → VidSet → VidSet
add_port_vids [] vids = vids
add_port_vids (i ∷ is) vids = add_port_vids is (if i.port_vid then put i.vid tt vids else vids)

unfoldable pub vlan_id_set : NameSet → (ℕ → List BridgeVlanInfo) → List Link → VidSet → VidSet
unfolding add_port_vids
vlan_id_set names info [] vids = vids
vlan_id_set names info (port ∷ ports) vids =
    vlan_id_set names info ports
      (if has port.name names then vids else add_port_vids (info (int32 port.index)) vids)

module _ {W : Type 0} (k : Kernel W) where
  -- The error of `LinkList` is swallowed.
  unfoldable pub get_bridge_ports : Link → W → List Link
  get_bridge_ports br w = elim (k.link_list w) [
    | err e ↦ []
    | ok all_links ↦ keep (λ v. v.master_index == br.index) all_links
  ]

  -- The first loop of `bridgeVlanIDReconcile`. It takes what it meets out of the set, which in
  -- Go is the caller's; so the set comes back.
  unfoldable pub drop_stale : Link → List BridgeVlanInfo → VidSet → M W VidSet
  drop_stale link [] vids = pure vids
  drop_stale link (i ∷ is) vids = do
    if has i.vid vids
        then pure tt
        else do netlink k (bridge_vlan_del link i.vid i.port_vid i.egress_untag false true); pure tt
    drop_stale link is (if has i.vid vids then remove i.vid vids else vids)

  unfoldable pub add_vid : Link → ℕ → M W (Unit {0})
  add_vid link vid = do netlink k (bridge_vlan_add link vid false false false true); pure tt

  unfoldable pub add_missing : Link → VidSet → M W (Unit {0})
  unfolding add_vid
  add_missing link [] = do netlink k (bridge_vlan_add link 1 true true false true); pure tt
  add_missing link (v ∷ vids) = for_each (keys (v ∷ vids)) (add_vid link)

  unfoldable pub bridge_vlan_id_reconcile : Link → (ℕ → List BridgeVlanInfo) → VidSet → M W VidSet
  unfolding drop_stale add_missing
  bridge_vlan_id_reconcile link info vids = do
    left ← drop_stale link (info (int32 link.index)) vids
    add_missing link left
    pure left

  -- The last loop of `bridgeVlanFilteringReconcile`: one set for all egress ports.
  unfoldable pub reconcile_ports :
      NameSet → (ℕ → List BridgeVlanInfo) → List Link → VidSet → M W (Unit {0})
  unfolding bridge_vlan_id_reconcile
  reconcile_ports names info [] vids = pure tt
  reconcile_ports names info (port ∷ ports) vids = do
    left ← if has port.name names then bridge_vlan_id_reconcile port info vids else pure vids
    reconcile_ports names info ports left

  unfoldable pub reconcile_vids :
      BridgeConfiguration → Link → Result (ℕ → List BridgeVlanInfo) → M W (Option Error)
  unfolding reconcile_ports vlan_id_set egress_interface_name_set get_bridge_ports
  reconcile_vids config br (err e) = pure (some (failed "failed to get bridge vlan info"))
  reconcile_vids config br (ok info) = do
    ports ← gets (λ s. get_bridge_ports br s.world)
    let names = egress_interface_name_set config
    reconcile_ports names info ports (vlan_id_set names info ports [])
    pure none

  unfoldable pub enable_filtering : Link → Bool → M W (Option Error)
  enable_filtering br enabled =
      if enabled then pure none else netlink k (bridge_set_vlan_filtering br true)

  unfoldable pub bridge_vlan_filtering_reconcile :
      BridgeConfiguration → Option Link → M W (Option Error)
  unfolding enable_filtering reconcile_vids
  bridge_vlan_filtering_reconcile config link = do
    br ← deref link
    pointer ← deref (vlan_filtering br)
    enabled ← deref pointer
    e ← enable_filtering br enabled
    if is_nil e
        then (do info ← gets (λ s. k.bridge_vlan_list s.world); reconcile_vids config br info)
        else pure (some (failed "failed to set bridge vlan_filtering"))
