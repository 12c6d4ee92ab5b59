-- ===== src/Netlink.antt =====
-- What the daemon uses of github.com/vishvananda/netlink: links and VLAN entries as data, and
-- the kernel as a parameter. A read does not change the kernel; a mutating call is a `NetCall`.
use bridge_operator.Prelude.{Bool, Error, List, Option, Result, String, ℕ, ℤ}

pub data VlanProtocol : Type 0 where
  vlan_protocol_8021q vlan_protocol_8021ad : VlanProtocol

-- The dynamic type of a `netlink.Link`, with the fields beside `LinkAttrs` that are used. The
-- `VlanFiltering` of a bridge is a pointer, which may be nil.
pub data Device : Type 0 where
  bridge_device : Option Bool → Device
  vlan_device : ℤ → VlanProtocol → Device
  other_device : String → Device

pub record Link : Type 0 where
  pub index : ℕ
  pub name : String
  pub master_index : ℕ
  pub parent_index : ℕ
  pub tx_q_len : ℕ
  pub device : Device

-- `link.Type()`
unfoldable pub link_type : Link → String
link_type l = elim l.device [
  | bridge_device _ ↦ "bridge"
  | vlan_device _ _ ↦ "vlan"
  | other_device t ↦ t
]

-- `nl.BridgeVlanInfo`: the VLAN id, `PortVID()` and `EgressUntag()`.
pub record BridgeVlanInfo : Type 0 where
  pub vid : ℕ
  pub port_vid : Bool
  pub egress_untag : Bool

-- The arguments of `bridge_vlan_add` and `bridge_vlan_del` are the link, the id, and the flags
-- pvid, untagged, self and master.
pub data NetCall : Type 0 where
  link_add link_set_up link_del link_set_no_master : Link → NetCall
  link_set_master : Link → Link → NetCall
  bridge_set_vlan_filtering : Link → Bool → NetCall
  bridge_vlan_add bridge_vlan_del : Link → ℕ → Bool → Bool → Bool → Bool → NetCall

pub record Kernel (W : Type 0) : Type 0 where
  pub link_list : W → Result (List Link)
  pub link_by_name : String → W → Result Link
  pub link_by_index : ℕ → W → Result Link
  -- `BridgeVlanList`: the entries of the link with a given index.
  pub bridge_vlan_list : W → Result (ℕ → List BridgeVlanInfo)
  -- The error, or none, and the kernel after the call.
  pub perform : NetCall → W → Option Error × W
  -- `LinkAdd` fills in the index of the object that it was given.
  pub ensure_index : Link → W → Link
