-- ===== src/Examples/Names.antt =====
-- The name of a VLAN interface that is longer than Linux takes, which is 15 bytes.
use bridge_operator.Prelude.{int_eq, nat_eq, pos, refl, string_eq, ◌+◌, ◌≡◌, ◌≤◌, arith}
use bridge_operator.Types.{EgressVlanInterface, interface_eq, vlan_interface_eq}
use bridge_operator.VlanName.{generate_egress_vlan_interface_name}
use bridge_operator.VlanName.Injective.{is_ad}
use bridge_operator.VlanName.Length.{
  digit_count, size, size-generate_egress_vlan_interface_name, suffix_size,
}

abbrev outer : EgressVlanInterface
outer = record { name = "enp0s31f6"; protocol = "802.1ad"; id = pos 4000 }

name_size_example :
    (size (generate_egress_vlan_interface_name outer)
      ≡ size "enp0s31f6" + 1 + digit_count 4000 + suffix_size (is_ad outer))
    × (size (generate_egress_vlan_interface_name outer) ≤ size "enp0s31f6" + 7)
name_size_example = size-generate_egress_vlan_interface_name outer 4000 refl (ground arith)

name_test : size (generate_egress_vlan_interface_name outer) ≡ 16
name_test = (size-generate_egress_vlan_interface_name outer 4000 refl (ground arith)).0
