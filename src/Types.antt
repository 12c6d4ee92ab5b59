-- ===== src/Types.antt =====
-- The API types of api/bridgeoperator.k8s.cni.npwg.io/v1alpha1/types.go. Of the Kubernetes
-- metadata types they hold what the program reads: names, labels and selectors.
use text.Mathlib.TextEquality.{eq_iff}
use bridge_operator.Prelude.{
  Bool, Eq, List, String, arith, int_beq_iff, int_eq, nat_eq, string_eq, true, ℤ, ◌&&◌, ◌==◌, ◌↔◌,
  ◌≡◌,
}
use bridge_operator.GoMap.{GoMap}

pub record TypeMeta : Type 0 where
  pub kind : String
  pub api_version : String

pub record ObjectMeta : Type 0 where
  pub name : String
  pub namespace : String

pub record LabelSelectorRequirement : Type 0 where
  pub key : String
  pub operator : String
  pub values : List String

pub record LabelSelector : Type 0 where
  pub match_labels : GoMap String String
  pub match_expressions : List LabelSelectorRequirement

pub record EgressInterface : Type 0 where
  pub name : String

pub record EgressVlanInterface : Type 0 where
  pub name : String
  pub protocol : String
  pub id : ℤ

pub record BridgeConfigurationSpec : Type 0 where
  pub node_selector : LabelSelector
  pub egress_vlan_interfaces : List EgressVlanInterface
  pub egress_interfaces : List EgressInterface

pub record BridgeConfiguration : Type 0 where
  pub type_meta : TypeMeta
  pub metadata : ObjectMeta
  pub spec : BridgeConfigurationSpec

-- The metadata of a list, which the program only hands on.
pub record ListMeta : Type 0 where
  pub resource_version : String

pub record BridgeConfigurationList : Type 0 where
  pub type_meta : TypeMeta
  pub list_meta : ListMeta
  pub items : List BridgeConfiguration

pub record BridgeInformationPortStatus : Type 0 where
  pub name : String
  pub managed : Bool

pub record BridgeInformationStatus : Type 0 where
  pub name : String
  pub node : String
  pub managed : Bool
  pub ports : List BridgeInformationPortStatus

pub record BridgeInformation : Type 0 where
  pub type_meta : TypeMeta
  pub metadata : ObjectMeta
  pub status : BridgeInformationStatus

pub record BridgeInformationList : Type 0 where
  pub type_meta : TypeMeta
  pub list_meta : ListMeta
  pub items : List BridgeInformation

-- `==` on the structs.
abbrev pub interface_beq : EgressInterface → EgressInterface → Bool
interface_beq a b = a.name == b.name

pub interface_beq_iff : (a b : EgressInterface) → (interface_beq a b ≡ true) ↔ (a ≡ b)
interface_beq_iff a b = ground (arith, eq_iff a.name b.name)

instance abbrev pub interface_eq : Eq EgressInterface
interface_eq = record { beq = interface_beq; beq_iff = interface_beq_iff }

abbrev pub vlan_interface_beq : EgressVlanInterface → EgressVlanInterface → Bool
vlan_interface_beq a b = a.name == b.name && a.protocol == b.protocol && a.id == b.id

pub vlan_interface_beq_iff : (a b : EgressVlanInterface) → (vlan_interface_beq a b ≡ true) ↔ (a ≡ b)
vlan_interface_beq_iff a b =
    ground (arith, eq_iff a.name b.name, eq_iff a.protocol b.protocol, int_beq_iff a.id b.id)

instance abbrev pub vlan_interface_eq : Eq EgressVlanInterface
vlan_interface_eq = record { beq = vlan_interface_beq; beq_iff = vlan_interface_beq_iff }
