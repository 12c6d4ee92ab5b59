-- ===== src/VlanName.antt =====
-- The names of VLAN interfaces: `generateEgressVlanInterfaceName` (pkg/server/bridgeconfig.go),
-- with the verb `%d` of `fmt.Sprintf`.
pub mod Injective
pub mod Length
use bridge_operator.Prelude.{
  String, if◌then◌else◌, int_eq, nat_eq, negsuc, pos, string_eq, suc, zero, ℕ, ℤ, ◌%◌, ◌/◌, ◌==◌,
}
use bridge_operator.Types.{EgressVlanInterface, interface_eq, vlan_interface_eq}
use Prim.Native.Char.{Char}
use Prim.Native.String.{◌++◌, ◌∷◌}

unfoldable pub digit : ℕ → Char
digit d =
    if d == 0
    then "0"
    else if d == 1
    then "1"
    else if d == 2
    then "2"
    else if d == 3
    then "3"
    else if d == 4
    then "4"
    else if d == 5
    then "5"
    else if d == 6
    then "6"
    else if d == 7
    then "7"
    else if d == 8
    then "8"
    else "9"

-- The digits of `n` in front of `out`, the last one first.
unfoldable pub digits : ℕ → ℕ → String → String
unfolding digit
digits zero n out = out
digits (suc fuel) n out =
    let out' = digit (n % 10) ∷ out in
    let rest = digits fuel (n / 10) out' in if n / 10 == 0 then out' else rest

unfoldable pub decimal : ℕ → String
unfolding digits
decimal n = digits (suc n) n ""

unfoldable pub format_int : ℤ → String
unfolding decimal
format_int (pos n) = decimal n
format_int (negsuc n) = "-" ++ decimal (suc n)

unfoldable pub name_of_id : String → ℤ → String → String
unfolding format_int
name_of_id name id suffix = name ++ ("." ++ (format_int id ++ suffix))

unfoldable pub generate_egress_vlan_interface_name : EgressVlanInterface → String
unfolding name_of_id
generate_egress_vlan_interface_name v =
    if v.protocol == "802.1ad" then name_of_id v.name v.id "ad" else name_of_id v.name v.id ""
