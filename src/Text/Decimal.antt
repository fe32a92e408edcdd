-- ===== src/Text/Decimal.antt =====
-- strconv.Itoa and strconv.Atoi on a 64-bit `int`.
pub mod Width
use slurm_shim.Common.{
  ℕ, zero, suc, ◌+◌, ◌-◌, ◌*◌, ◌/◌, ◌%◌, ◌^◌, ◌≤◌, ◌<◌, Bool, true, false, [], ◌∷◌, Option, none,
  some, ◌≡◌, ◌≢◌, refl, arith, ◌==◌, ltb, leb, if◌then◌else◌, All, length,
}
use slurm_shim.Common.Int.{ℤ, pos, negsuc}
use native.Mathlib.Nat.{pow-suc}
use slurm_shim.Text.Bytes.{Bytes, codes, is_digit, IsDigit}

-- The digits of `n` in front of `out`; the fuel is a bound of `n`, which each round divides by ten.
digits : ℕ → ℕ → Bytes → Bytes
digits zero n out = out
digits (suc f) n out = elim (ltb n 10) [
  | true ↦ (b'0' + n) ∷ out
  | false ↦ digits f (n / 10) ((b'0' + n % 10) ∷ out)
]

-- strconv.Itoa of a number that is not negative.
unfoldable pub itoa_ℕ : ℕ → Bytes
unfolding digits
itoa_ℕ n = digits (suc n) n []

unfoldable pub itoa : ℤ → Bytes
unfolding itoa_ℕ
itoa (pos n) = itoa_ℕ n
itoa (negsuc n) = b'-' ∷ itoa_ℕ (suc n)

-- The value of digits behind `n`, `none` at another byte. No bound is set here.
unfoldable pub value_from : ℕ → Bytes → Option ℕ
value_from n [] = some n
value_from n (c ∷ s) =
    let rest = value_from (n * 10 + (c - b'0')) s in if is_digit c then rest else none

-- strconv.Atoi of the digits behind a sign: empty text and other bytes are errors.
unfoldable pub parse_digits : Bytes → Option ℕ
unfolding value_from
parse_digits [] = none
parse_digits (c ∷ s) = value_from 0 (c ∷ s)

abbrev pub max_int : ℕ
max_int = 2 ^ 63 - 1

-- The integer with this sign and magnitude, `none` where it leaves the 64 bits.
in_int : Bool → ℕ → Option ℤ
in_int true zero = some (pos 0)
in_int true (suc n) = if leb n max_int then some (negsuc n) else none
in_int false n = if leb n max_int then some (pos n) else none

-- strconv.Atoi: a sign, then digits; `none` for any error.
unfoldable pub atoi : Bytes → Option ℤ
unfolding parse_digits in_int
atoi [] = none
atoi (c ∷ s) =
    if c == b'-'
    then elim (parse_digits s) [ none ↦ none | some n ↦ in_int true n ]
    else elim (parse_digits (if c == b'+' then s else c ∷ s)) [
      | none ↦ none
      | some n ↦ in_int false n
    ]

-- The range of a 64-bit `int`.
abbrev pub InInt : ℤ → Type 0
InInt (pos n) = n ≤ max_int
InInt (negsuc n) = n ≤ max_int

samples :
    (itoa (pos 1024) ≡ codes "1024")
    × (itoa (negsuc 41) ≡ codes "-42")
    × (atoi (codes "+7") ≡ some (pos 7))
    × (atoi (codes "-") ≡ none)
    × (atoi (codes "9223372036854775808") ≡ none)
    × (atoi (codes "-9223372036854775808") ≡ some (negsuc (2 ^ 63 - 1)))
unfolding itoa atoi
samples = (refl, refl, refl, refl, refl, refl)

digits-IsDigit : (f n : ℕ) (out : Bytes) → All IsDigit out → All IsDigit (digits f n out)
unfolding digits
digits-IsDigit zero n out h = h
digits-IsDigit (suc f) n out h =
    ground
      (arith, digits-IsDigit f (n / 10) ((b'0' + n % 10) ∷ out) ((omega arith, omega arith), h))

digits-ne-nil : (f n : ℕ) (out : Bytes) → out ≢ [] → digits f n out ≢ []
unfolding digits
digits-ne-nil zero n out h = h
digits-ne-nil (suc f) n out h =
    ground (arith, digits-ne-nil f (n / 10) ((b'0' + n % 10) ∷ out) (cc))

value_from-digits :
    (f n : ℕ) (out : Bytes) → n < f → value_from 0 (digits f n out) ≡ value_from n out
unfolding digits value_from
value_from-digits zero n out h = absurd (omega arith)
value_from-digits (suc f) n out h =
    ground (arith, value_from-digits f (n / 10) ((b'0' + n % 10) ∷ out), join_digits)
  where
    join_digits : n / 10 * 10 + (b'0' + n % 10 - b'0') ≡ n
    join_digits = omega arith

pub itoa_ℕ-IsDigit : (n : ℕ) → All IsDigit (itoa_ℕ n)
unfolding itoa_ℕ
itoa_ℕ-IsDigit n = digits-IsDigit (suc n) n [] tt

pub itoa_ℕ-ne-nil : (n : ℕ) → itoa_ℕ n ≢ []
unfolding itoa_ℕ
itoa_ℕ-ne-nil n = ground (arith, digits-ne-nil n (n / 10) ((b'0' + n % 10) ∷ []) (cc))

pub parse_digits-value : (s : Bytes) → s ≢ [] → parse_digits s ≡ value_from 0 s
unfolding parse_digits
parse_digits-value [] h = absurd (h refl)
parse_digits-value (c ∷ s) h = refl

pub parse_digits-itoa_ℕ : (n : ℕ) → parse_digits (itoa_ℕ n) ≡ some n
parse_digits-itoa_ℕ n =
    rw (parse_digits-value _ (itoa_ℕ-ne-nil n))
      (unfold itoa_ℕ value_from in value_from-digits (suc n) n [] (omega arith))

not_sign : (c : ℕ) → IsDigit c → ((c == b'-') ≡ false) × ((c == b'+') ≡ false)
not_sign c h = (ground arith, ground arith)

atoi-digits :
    (s : Bytes) (n : ℕ)
    → All IsDigit s
    → parse_digits s ≡ some n
    → n ≤ max_int
    → atoi s ≡ some (pos n)
unfolding atoi
atoi-digits [] n d p h = cc
atoi-digits (c ∷ s) n (hc, hs) p h =
    let (no_minus, no_plus) = not_sign c hc in rw (no_minus, no_plus, p) (ground arith)

-- Every 64-bit integer is read back from its decimal print.
pub atoi-itoa : (z : ℤ) → InInt z → atoi (itoa z) ≡ some z
unfolding itoa
atoi-itoa (pos n) h = atoi-digits (itoa_ℕ n) n (itoa_ℕ-IsDigit n) (parse_digits-itoa_ℕ n) h
atoi-itoa (negsuc n) h = unfold atoi in rw (parse_digits-itoa_ℕ (suc n)) (ground arith)

length-digits :
    (k f n : ℕ) (out : Bytes) → n < 10 ^ suc k → length (digits f n out) ≤ suc k + length out
unfolding digits
length-digits k zero n out h = omega arith
length-digits zero (suc f) n out h = ground arith
length-digits (suc k) (suc f) n out h =
    let smaller : n / 10 < 10 ^ suc k = omega (arith, pow-suc 10 (suc k)) in
    ground (arith, length-digits k f (n / 10) ((b'0' + n % 10) ∷ out) smaller)

-- A 64-bit integer has fewer than 22 characters.
pub length-itoa : (z : ℤ) → InInt z → length (itoa z) ≤ 21
unfolding itoa itoa_ℕ
length-itoa (pos n) h = omega (arith, length-digits 18 (suc n) n [] (omega arith))
length-itoa (negsuc n) h = omega (arith, length-digits 19 (suc (suc n)) (suc n) [] (omega arith))
