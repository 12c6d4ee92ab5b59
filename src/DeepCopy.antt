-- ===== src/DeepCopy.antt =====
-- The generated copies of objects
-- (api/bridgeoperator.k8s.cni.npwg.io/v1alpha1/zz_generated.deepcopy.go), with the memory that their
-- slices share. Of the parts that other libraries copy, the metadata and the node selector, the
-- copy is a parameter.
pub mod Copies
pub mod Fresh
pub mod Lists
pub mod InformationLists
pub mod ListCopies
use bridge_operator.Prelude.{Bool, List, Option, String, false, none, pos, some, true, ◌≡◌}
use bridge_operator.Memory.{Slice, copy_slice}
use bridge_operator.Types.{
  BridgeInformationPortStatus, EgressInterface, EgressVlanInterface, LabelSelector, ObjectMeta,
  TypeMeta,
}

-- A type `X` of values in a memory `H`, what one stands for there, and its `DeepCopyInto`.
pub record Copier (X V H : Type 0) : Type 0 where
  pub deep_copy : X → H → X × H
  pub read : H → X → V
  pub is_in : H → X → Bool
  pub copied :
      (x : X) (h : H) → is_in h x ≡ true → read (deep_copy x h).1 (deep_copy x h).0 ≡ read h x
  pub kept :
      (x y : X) (h : H) → is_in h x ≡ true → is_in h y ≡ true → read (deep_copy x h).1 y ≡ read h y
  pub copy_in :
      (x : X) (h : H) → is_in h x ≡ true → is_in (deep_copy x h).1 (deep_copy x h).0 ≡ true
  pub stays_in :
      (x y : X) (h : H) → is_in h x ≡ true → is_in h y ≡ true → is_in (deep_copy x h).1 y ≡ true

-- The structs as they stand in memory.
pub record SpecObject (S : Type 0) : Type 0 where
  pub node_selector : S
  pub egress_vlan_interfaces : Option Slice
  pub egress_interfaces : Option Slice

pub record ConfigurationObject (N S : Type 0) : Type 0 where
  pub type_meta : TypeMeta
  pub object_meta : N
  pub spec : SpecObject S

pub record StatusObject : Type 0 where
  pub name : String
  pub node : String
  pub managed : Bool
  pub ports : Option Slice

pub record InformationObject (N : Type 0) : Type 0 where
  pub type_meta : TypeMeta
  pub object_meta : N
  pub status : StatusObject

-- The memory: of metadata, of selectors, and of the elements of the slices.
pub record Heap (HN HS : Type 0) : Type 0 where
  pub metas : HN
  pub selectors : HS
  pub vlan_cells : List EgressVlanInterface
  pub interface_cells : List EgressInterface
  pub port_cells : List BridgeInformationPortStatus

-- The zero values.
abbrev pub zero_interface : EgressInterface
zero_interface = record { name = "" }

abbrev pub zero_vlan_interface : EgressVlanInterface
zero_vlan_interface = record { name = ""; protocol = ""; id = pos 0 }

abbrev pub zero_port : BridgeInformationPortStatus
zero_port = record { name = ""; managed = false }

-- `DeepCopy` of a pointer, which may be nil, from the `DeepCopyInto` of the struct.
unfoldable pub deep_copy_of : {X H : Type 0} → (X → H → X × H) → Option X → H → Option X × H
deep_copy_of into none h = (none, h)
deep_copy_of into (some x) h = let (y, h1) = into x h in (some y, h1)

-- The copies of structs that hold no pointer.
unfoldable pub egress_interface_deep_copy : Option EgressInterface → Option EgressInterface
egress_interface_deep_copy none = none
egress_interface_deep_copy (some x) = some x

unfoldable pub egress_vlan_interface_deep_copy :
    Option EgressVlanInterface → Option EgressVlanInterface
egress_vlan_interface_deep_copy none = none
egress_vlan_interface_deep_copy (some x) = some x

unfoldable pub port_status_deep_copy :
    Option BridgeInformationPortStatus → Option BridgeInformationPortStatus
port_status_deep_copy none = none
port_status_deep_copy (some x) = some x

module _ {N S HN HS : Type 0} (meta_copier : Copier N ObjectMeta HN)
    (selector_copier : Copier S LabelSelector HS) where
  unfoldable pub spec_deep_copy_into : SpecObject S → Heap HN HS → SpecObject S × Heap HN HS
  spec_deep_copy_into spec h =
      let (selector, selectors) = selector_copier.deep_copy spec.node_selector h.selectors in
      let (vlans, vlan_cells) =
        copy_slice zero_vlan_interface spec.egress_vlan_interfaces h.vlan_cells in
      let (interfaces, interface_cells) =
        copy_slice zero_interface spec.egress_interfaces h.interface_cells in
      (
        record {
          node_selector = selector;
          egress_vlan_interfaces = vlans;
          egress_interfaces = interfaces;
        },
        record h {
          selectors = selectors;
          vlan_cells = vlan_cells;
          interface_cells = interface_cells;
        },
      )

  unfoldable pub configuration_deep_copy_into :
      ConfigurationObject N S → Heap HN HS → ConfigurationObject N S × Heap HN HS
  configuration_deep_copy_into config h =
      let (meta, metas) = meta_copier.deep_copy config.object_meta h.metas in
      let (spec, h1) = spec_deep_copy_into config.spec (record h { metas = metas }) in
      (record config { object_meta = meta; spec = spec }, h1)

  unfoldable pub status_deep_copy_into : StatusObject → Heap HN HS → StatusObject × Heap HN HS
  status_deep_copy_into status h =
      let (ports, port_cells) = copy_slice zero_port status.ports h.port_cells in
      (record status { ports = ports }, record h { port_cells = port_cells })

  unfoldable pub information_deep_copy_into :
      InformationObject N → Heap HN HS → InformationObject N × Heap HN HS
  information_deep_copy_into info h =
      let (meta, metas) = meta_copier.deep_copy info.object_meta h.metas in
      let (status, h1) = status_deep_copy_into info.status (record h { metas = metas }) in
      (record info { object_meta = meta; status = status }, h1)

  unfoldable pub spec_deep_copy :
      Option (SpecObject S) → Heap HN HS → Option (SpecObject S) × Heap HN HS
  spec_deep_copy = deep_copy_of spec_deep_copy_into

  unfoldable pub configuration_deep_copy :
      Option (ConfigurationObject N S) → Heap HN HS → Option (ConfigurationObject N S) × Heap HN HS
  configuration_deep_copy = deep_copy_of configuration_deep_copy_into

  unfoldable pub status_deep_copy :
      Option StatusObject → Heap HN HS → Option StatusObject × Heap HN HS
  status_deep_copy = deep_copy_of status_deep_copy_into

  unfoldable pub information_deep_copy :
      Option (InformationObject N) → Heap HN HS → Option (InformationObject N) × Heap HN HS
  information_deep_copy = deep_copy_of information_deep_copy_into
