-- ===== src/VlanName/Injective.antt =====
-- What the names of VLAN interfaces tell apart.
use mathlib.Core.Path.{subst}
use bridge_operator.Prelude.{
  Bool, Bool-cases, String, ap, arith, false, if◌then◌else◌, inl, inr, int_eq, nat_eq, negsuc, pos,
  refl, string_eq, suc, sym, true, zero, ℕ, ℤ, ◌%◌, ◌*◌, ◌+◌, ◌-◌, ◌/◌, ◌<◌, ◌==◌, ◌∙◌, ◌≡◌, ◌≢◌,
}
use bridge_operator.Types.{EgressVlanInterface, interface_eq, vlan_interface_eq}
use bridge_operator.VlanName.{
  decimal, digit, digits, format_int, generate_egress_vlan_interface_name,
}
use Prim.Native.Char.{Char, code}
use Prim.Native.Nat.{pred}
use text.Mathlib.TextLemmas.{nil-append, cons-append, cons-eq-cons, append_assoc}
use Prim.Native.String.{[], ◌++◌, ◌∷◌}

code-digit : (d : ℕ) → d < 10 → code (digit d) ≡ 48 + d
unfolding digit
code-digit zero h = refl
code-digit (suc zero) h = refl
code-digit (suc (suc zero)) h = refl
code-digit (suc (suc (suc zero))) h = refl
code-digit (suc (suc (suc (suc zero)))) h = refl
code-digit (suc (suc (suc (suc (suc zero))))) h = refl
code-digit (suc (suc (suc (suc (suc (suc zero)))))) h = refl
code-digit (suc (suc (suc (suc (suc (suc (suc zero))))))) h = refl
code-digit (suc (suc (suc (suc (suc (suc (suc (suc zero)))))))) h = refl
code-digit (suc (suc (suc (suc (suc (suc (suc (suc (suc zero))))))))) h = refl
code-digit (suc (suc (suc (suc (suc (suc (suc (suc (suc (suc n)))))))))) h = absurd (omega arith)

-- Reads the digits behind a number, up to the end or the letter `a`.
abbrev scan : String → ℕ → ℕ × Bool
scan [] n = (n, false)
scan (c ∷ s) n = if code c == 97 then (n, true) else scan s (n * 10 + (code c - 48))

scan-digit : (d n : ℕ) (s : String) → d < 10 → scan (digit d ∷ s) n ≡ scan s (n * 10 + d)
scan-digit d n s h = ground (arith, code-digit d h)

scan-digits : (fuel n : ℕ) (out : String) → n < fuel → scan (digits fuel n out) 0 ≡ scan out n
unfolding digits
scan-digits zero n out h = absurd (omega arith)
scan-digits (suc fuel) n out h = elim (Bool-cases (n / 10 == 0)) [
  | inl e ↦ rw e (scan-digit (n % 10) 0 out (omega arith) ∙ ap (scan out) (ground (arith, e)))
  | inr e ↦ rw e (
      scan-digits fuel (n / 10) (digit (n % 10) ∷ out) (ground (arith, e))
      ∙ scan-digit (n % 10) (n / 10) out (omega arith)
      ∙ ap (scan out) (omega arith))
]

-- The digits stand in front of whatever follows.
digits-append :
    (fuel n : ℕ) (out rest : String) → digits fuel n out ++ rest ≡ digits fuel n (out ++ rest)
unfolding digits
digits-append zero n out rest = refl
digits-append (suc fuel) n out rest = elim (Bool-cases (n / 10 == 0)) [
  | inl e ↦ rw e (cons-append (digit (n % 10)) out rest)
  | inr e ↦ rw e (
      digits-append fuel (n / 10) (digit (n % 10) ∷ out) rest
      ∙ ap (digits fuel (n / 10)) (cons-append (digit (n % 10)) out rest))
]

scan-decimal : (n : ℕ) (rest : String) → scan (decimal n ++ rest) 0 ≡ scan rest n
unfolding decimal
scan-decimal n rest =
    ap (λ t. scan t 0) (digits-append (suc n) n "" rest ∙ ap (digits (suc n) n) (nil-append rest))
    ∙ scan-digits (suc n) n rest (omega arith)

-- No character of the text is a sign or a dot.
abbrev NoSign : String → Type 0
NoSign [] = Unit {0}
NoSign (c ∷ s) = (47 < code c) × NoSign s

abbrev pub NoDot : String → Type 0
NoDot [] = Unit {0}
NoDot (c ∷ s) = (code c ≢ 46) × NoDot s

NoDot-NoSign : (s : String) → NoSign s → NoDot s
NoDot-NoSign [] h = tt
NoDot-NoSign (c ∷ s) h = (omega arith, NoDot-NoSign s h.1)

digits-NoSign : (fuel n : ℕ) (out : String) → NoSign out → NoSign (digits fuel n out)
unfolding digits
digits-NoSign zero n out h = h
digits-NoSign (suc fuel) n out h =
    let h' : NoSign (digit (n % 10) ∷ out) =
      (omega (arith, code-digit (n % 10) (omega arith)), h) in
    elim (Bool-cases (n / 10 == 0)) [
      | inl e ↦ rw e h'
      | inr e ↦ rw e (digits-NoSign fuel (n / 10) (digit (n % 10) ∷ out) h')
    ]

decimal-NoSign : (n : ℕ) (rest : String) → NoSign rest → NoSign (decimal n ++ rest)
unfolding decimal
decimal-NoSign n rest h =
    rw (digits-append (suc n) n "" rest, nil-append rest) (digits-NoSign (suc n) n rest h)

abbrev pub dot : Char
dot = "."

dot-append : (s : String) → "." ++ s ≡ dot ∷ s
dot-append s = cons-append dot [] s ∙ ap (λ t. dot ∷ t) (nil-append s)

not-NoDot : (b t : String) → ¬ NoDot (b ++ (dot ∷ t))
not-NoDot [] t h = (rw nil-append at h).0 refl
not-NoDot (c ∷ b) t h = not-NoDot b t (rw cons-append at h).1

-- Of two texts that end in a dot and what has no dot, the parts behind the dot are equal.
split_at_dot :
    (a b s t : String) → NoDot s → NoDot t → a ++ (dot ∷ s) ≡ b ++ (dot ∷ t) → (a ≡ b) × (s ≡ t)
split_at_dot [] [] s t hs ht e =
    (refl, (cons-eq-cons.0 (sym (nil-append (dot ∷ s)) ∙ e ∙ nil-append (dot ∷ t))).1)
split_at_dot [] (c ∷ b) s t hs ht e =
    let p = cons-eq-cons.0 (sym (nil-append (dot ∷ s)) ∙ e ∙ cons-append c b (dot ∷ t)) in
    absurd (not-NoDot b t (subst NoDot p.1 hs))
split_at_dot (c ∷ a) [] s t hs ht e =
    let p = cons-eq-cons.0 (sym (nil-append (dot ∷ t)) ∙ sym e ∙ cons-append c a (dot ∷ s)) in
    absurd (not-NoDot a s (subst NoDot p.1 ht))
split_at_dot (c ∷ a) (d ∷ b) s t hs ht e =
    let p = cons-eq-cons.0 (sym (cons-append c a (dot ∷ s)) ∙ e ∙ cons-append d b (dot ∷ t)) in
    let q = split_at_dot a b s t hs ht p.1 in (cons-eq-cons.1 (p.0, q.0), q.1)

-- The suffix that marks the protocol.
abbrev pub suffix : Bool → String
suffix true = "ad"
suffix false = ""

suffix-NoSign : (b : Bool) → NoSign (suffix b)
suffix-NoSign true = omega arith
suffix-NoSign false = tt

scan-suffix : (b : Bool) (n : ℕ) → scan (suffix b) n ≡ (n, b)
scan-suffix true n = refl
scan-suffix false n = refl

scan_back : (n : ℕ) (b : Bool) → scan (decimal n ++ suffix b) 0 ≡ (n, b)
scan_back n b = scan-decimal n (suffix b) ∙ scan-suffix b n

abbrev minus : Char
minus = "-"

negative : (n : ℕ) (rest : String) → ("-" ++ decimal n) ++ rest ≡ minus ∷ (decimal n ++ rest)
negative n rest =
    append_assoc "-" (decimal n) rest
    ∙ cons-append minus [] (decimal n ++ rest)
    ∙ ap (λ t. minus ∷ t) (nil-append (decimal n ++ rest))

format_int-NoDot : (i : ℤ) (b : Bool) → NoDot (format_int i ++ suffix b)
unfolding format_int
format_int-NoDot (pos n) b = NoDot-NoSign _ (decimal-NoSign n (suffix b) (suffix-NoSign b))
format_int-NoDot (negsuc n) b = rw (negative (suc n) (suffix b)) (
  (λ e. absurd (omega arith)),
  NoDot-NoSign _ (decimal-NoSign (suc n) (suffix b) (suffix-NoSign b)),
)

not_negative : (n m : ℕ) (b c : Bool) → decimal n ++ suffix b ≢ ("-" ++ decimal m) ++ suffix c
not_negative n m b c e =
    let h =
      subst NoSign (e ∙ negative m (suffix c)) (decimal-NoSign n (suffix b) (suffix-NoSign b)) in
    absurd (omega (arith, h.0))

format_int-injective :
    (i j : ℤ) (b c : Bool) → format_int i ++ suffix b ≡ format_int j ++ suffix c → (i ≡ j) × (b ≡ c)
unfolding format_int
format_int-injective (pos n) (pos m) b c e =
    let p = sym (scan_back n b) ∙ ap (λ t. scan t 0) e ∙ scan_back m c in
    (ap (λ q. pos q.0) p, ap (λ q. q.1) p)
format_int-injective (pos n) (negsuc m) b c e = absurd (not_negative n (suc m) b c e)
format_int-injective (negsuc n) (pos m) b c e = absurd (not_negative m (suc n) c b (sym e))
format_int-injective (negsuc n) (negsuc m) b c e =
    let t =
      (cons-eq-cons.0 (sym (negative (suc n) (suffix b)) ∙ e ∙ negative (suc m) (suffix c))).1 in
    let p = sym (scan_back (suc n) b) ∙ ap (λ t. scan t 0) t ∙ scan_back (suc m) c in
    (ap (λ q. negsuc (pred q.0)) p, ap (λ q. q.1) p)

-- Whether the name gets the suffix of 802.1ad.
abbrev pub is_ad : EgressVlanInterface → Bool
is_ad v = v.protocol == "802.1ad"

pub name_shape :
    (v : EgressVlanInterface)
    → generate_egress_vlan_interface_name v
      ≡ v.name ++ (dot ∷ (format_int v.id ++ suffix (is_ad v)))
unfolding generate_egress_vlan_interface_name
name_shape v = elim (Bool-cases (is_ad v)) [
  | inl e ↦ rw e (ap (λ t. v.name ++ t) (dot-append _))
  | inr e ↦ rw e (ap (λ t. v.name ++ t) (dot-append _))
]

-- The name has a dot in it.
pub name-not-NoDot : (v : EgressVlanInterface) → ¬ NoDot (generate_egress_vlan_interface_name v)
name-not-NoDot v h = not-NoDot v.name _ (subst NoDot (name_shape v) h)

-- Two VLAN interfaces get the same name only if they have the same parent interface, the same id,
-- and are both 802.1ad or both not.
pub generate_egress_vlan_interface_name-injective :
    (v w : EgressVlanInterface)
    → generate_egress_vlan_interface_name v ≡ generate_egress_vlan_interface_name w
    → (v.name ≡ w.name) × (v.id ≡ w.id) × (is_ad v ≡ is_ad w)
generate_egress_vlan_interface_name-injective v w e =
    let (same_name, same_rest) =
      split_at_dot v.name w.name _ _ (format_int-NoDot v.id (is_ad v))
        (format_int-NoDot w.id (is_ad w)) (sym (name_shape v) ∙ e ∙ name_shape w) in
    let (same_id, same_kind) = format_int-injective v.id w.id (is_ad v) (is_ad w) same_rest in
    (same_name, same_id, same_kind)
