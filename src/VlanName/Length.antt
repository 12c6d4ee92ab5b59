-- ===== src/VlanName/Length.antt =====
-- How long the names of VLAN interfaces are.
use bridge_operator.Prelude.{
  Bool, Bool-cases, String, ap, arith, if◌then◌else◌, inl, inr, int_eq, leb, nat_eq, pos, refl,
  string_eq, suc, true, false, zero, ℕ, ◌%◌, ◌+◌, ◌/◌, ◌<◌, ◌≤◌, ◌==◌, ◌∙◌, ◌≡◌,
}
use bridge_operator.Types.{EgressVlanInterface, interface_eq, vlan_interface_eq}
use bridge_operator.VlanName.{
  decimal, digit, digits, format_int, generate_egress_vlan_interface_name,
}
use bridge_operator.VlanName.Injective.{dot, is_ad, name_shape, suffix}
use text.Mathlib.TextLemmas.{nil-append, cons-append}
use Prim.Native.String.{[], ◌++◌, ◌∷◌}

abbrev pub size : String → ℕ
size [] = 0
size (c ∷ s) = suc (size s)

size-append : (s t : String) → size (s ++ t) ≡ size s + size t
size-append [] t = ap size (nil-append t) ∙ ground arith
size-append (c ∷ s) t = ap size (cons-append c s t) ∙ ground (arith, size-append s t)

-- The number of digits of a number below 10,000.
abbrev pub digit_count : ℕ → ℕ
digit_count n = if leb n 9 then 1 else if leb n 99 then 2 else if leb n 999 then 3 else 4

digit_count-div : (n : ℕ) → n < 10000 → 9 < n → digit_count n ≡ suc (digit_count (n / 10))
digit_count-div n h k = ground arith

size-digits :
    (fuel n : ℕ) (out : String)
    → n < fuel
    → n < 10000
    → size (digits fuel n out) ≡ digit_count n + size out
unfolding digits
size-digits zero n out h k = absurd (omega arith)
size-digits (suc fuel) n out h k = elim (Bool-cases (n / 10 == 0)) [
  | inl e ↦ rw e (ground (arith, e))
  | inr e ↦ rw e (
      size-digits fuel (n / 10) (digit (n % 10) ∷ out) (ground (arith, e)) (omega arith)
      ∙ ground (arith, e, digit_count-div n k (ground (arith, e))))
]

-- The suffix of 802.1ad.
abbrev pub suffix_size : Bool → ℕ
suffix_size b = if b then 2 else 0

size-suffix : (b : Bool) → size (suffix b) ≡ suffix_size b
size-suffix true = refl
size-suffix false = refl

-- For an id from 0 to 9999, the name of a VLAN interface is as long as the name of its parent, a
-- dot, the digits of the id, and two more characters for 802.1ad; so it is at most 7 characters
-- longer than the name of the parent.
pub size-generate_egress_vlan_interface_name :
    (v : EgressVlanInterface) (n : ℕ)
    → v.id ≡ pos n
    → n < 10000
    → (size (generate_egress_vlan_interface_name v)
        ≡ size v.name + 1 + digit_count n + suffix_size (is_ad v))
      × (size (generate_egress_vlan_interface_name v) ≤ size v.name + 7)
unfolding format_int decimal
size-generate_egress_vlan_interface_name v n e h =
    let exact : size (generate_egress_vlan_interface_name v)
        ≡ size v.name + 1 + digit_count n + suffix_size (is_ad v) =
      ap size (name_shape v)
      ∙ size-append v.name (dot ∷ (format_int v.id ++ suffix (is_ad v)))
      ∙ ap (λ x. size v.name + suc x) (size-append (format_int v.id) (suffix (is_ad v)))
      ∙ rw (e, size-suffix (is_ad v), size-digits (suc n) n "" (omega arith) h) (omega arith) in
    (exact, ground (arith, exact))
