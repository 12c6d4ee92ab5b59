-- ===== src/Filtering/Wanted.antt =====
-- The VLAN ids that the egress ports of a bridge are to have (`bridgeVlanFilteringReconcile`,
-- pkg/server/bridgeconfig.go), stated without the loops that collect them.
use mathlib.Core.Path.{fun_ext}
use bridge_operator.Prelude.{
  Bool, List, String, [], arith, false, if◌then◌else◌, int_eq, nat_eq, not, refl, string_eq, ℕ,
  ◌&&◌, ◌==◌, ◌||◌, ◌∙◌, ◌∷◌, ◌≡◌,
}
use bridge_operator.Egress.Masters.{mentions}
use bridge_operator.Filtering.{
  NameSet, VidSet, add_port_vids, egress_interface_name_set, int32, interface_names, vlan_id_set,
  vlan_names,
}
use bridge_operator.GoMap.{has, lookup, put}
use bridge_operator.GoMap.Laws.{has-put}
use bridge_operator.Netlink.{BridgeVlanInfo, Link}
use bridge_operator.Types.{
  BridgeConfiguration, EgressInterface, EgressVlanInterface, interface_eq, vlan_interface_eq,
}
use bridge_operator.VlanName.{generate_egress_vlan_interface_name}

abbrev pub names_vlan : String → List EgressVlanInterface → Bool
names_vlan n [] = false
names_vlan n (x ∷ xs) = generate_egress_vlan_interface_name x == n || names_vlan n xs

-- The configuration names the interface.
abbrev pub is_egress : BridgeConfiguration → String → Bool
is_egress config n =
    names_vlan n config.spec.egress_vlan_interfaces || mentions n config.spec.egress_interfaces

-- An entry of the list makes the id a port VLAN id.
abbrev pub lists_pvid : ℕ → List BridgeVlanInfo → Bool
lists_pvid v [] = false
lists_pvid v (i ∷ is) = (i.port_vid && i.vid == v) || lists_pvid v is

-- A port that the test does not pick has the port VLAN id.
abbrev pub wanted_by : (String → Bool) → (ℕ → List BridgeVlanInfo) → List Link → ℕ → Bool
wanted_by test info [] v = false
wanted_by test info (port ∷ ports) v =
    (not (test port.name) && lists_pvid v (info (int32 port.index))) || wanted_by test info ports v

has-interface_names :
    (n : String) (vs : List EgressInterface) (names : NameSet)
    → has n (interface_names vs names) ≡ (mentions n vs || has n names)
unfolding interface_names
has-interface_names n [] names = refl
has-interface_names n (x ∷ xs) names =
    has-interface_names n xs (put x.name tt names) ∙ ground (arith, has-put x.name n tt names)

has-vlan_names :
    (n : String) (vs : List EgressVlanInterface) (names : NameSet)
    → has n (vlan_names vs names) ≡ (names_vlan n vs || has n names)
unfolding vlan_names
has-vlan_names n [] names = refl
has-vlan_names n (x ∷ xs) names =
    let name = generate_egress_vlan_interface_name x in
    has-vlan_names n xs (put name tt names) ∙ ground (arith, has-put name n tt names)

-- `egressInterfaceNameSet` has exactly the names of the interfaces of the configuration.
pub has-egress_interface_name_set :
    (config : BridgeConfiguration) (n : String)
    → has n (egress_interface_name_set config) ≡ is_egress config n
unfolding egress_interface_name_set has lookup
has-egress_interface_name_set config n = ground (
  arith,
  has-vlan_names n config.spec.egress_vlan_interfaces
      (interface_names config.spec.egress_interfaces []),
  has-interface_names n config.spec.egress_interfaces [],
)

has-add_port_vids :
    (v : ℕ) (is : List BridgeVlanInfo) (vids : VidSet)
    → has v (add_port_vids is vids) ≡ (lists_pvid v is || has v vids)
unfolding add_port_vids
has-add_port_vids v [] vids = refl
has-add_port_vids v (i ∷ is) vids =
    has-add_port_vids v is (if i.port_vid then put i.vid tt vids else vids)
    ∙ ground (arith, has-put i.vid v tt vids)

has-vlan_id_set :
    (names : NameSet) (info : ℕ → List BridgeVlanInfo) (ports : List Link) (vids : VidSet) (v : ℕ)
    → has v (vlan_id_set names info ports vids)
      ≡ (wanted_by (λ n. has n names) info ports v || has v vids)
unfolding vlan_id_set
has-vlan_id_set names info [] vids v = refl
has-vlan_id_set names info (port ∷ ports) vids v =
    let is = info (int32 port.index) in
    has-vlan_id_set names info ports (if has port.name names then vids else add_port_vids is vids) v
    ∙ ground (arith, has-add_port_vids v is vids)

-- `vlanIDSet` has exactly the port VLAN ids of the ports that the configuration does not name.
pub has-wanted :
    (config : BridgeConfiguration) (info : ℕ → List BridgeVlanInfo) (ports : List Link) (v : ℕ)
    → has v (vlan_id_set (egress_interface_name_set config) info ports [])
      ≡ wanted_by (is_egress config) info ports v
unfolding has lookup
has-wanted config info ports v =
    has-vlan_id_set (egress_interface_name_set config) info ports [] v
    ∙ rw (fun_ext (has-egress_interface_name_set config)) (ground arith)
