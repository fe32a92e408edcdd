-- ===== src/Text/Decimal/Width.antt =====
-- Digits of a fixed width, as fmt prints them for `%0*d`.
use slurm_shim.Common.{
  ℕ, zero, suc, ◌+◌, ◌-◌, ◌*◌, ◌^◌, ◌≤◌, ◌<◌, true, [], ◌∷◌, ◌++◌, some, ◌≡◌, ◌≢◌, refl, sym, ap,
  ◌∙◌, arith, All, length, replicate, some_inj, length-append, All-++, subst,
}
use native.Mathlib.Nat.{pow-suc, mul_assoc, mul_comm}
use slurm_shim.Text.Bytes.{Bytes, is_digit, IsDigit}
use slurm_shim.Text.Decimal.{
  itoa_ℕ, value_from, parse_digits, parse_digits-value, parse_digits-itoa_ℕ, itoa_ℕ-ne-nil,
  itoa_ℕ-IsDigit, length-digits,
}

value_from-step :
    (a c : ℕ) (s : Bytes) → IsDigit c → value_from a (c ∷ s) ≡ value_from (a * 10 + (c - b'0')) s
unfolding value_from
value_from-step a c s (lo, hi) = let digit : is_digit c ≡ true = ground arith in rw digit refl

-- Digits of the same length and the same value are the same.
pub value_from-injective :
    (s t : Bytes) (a b v : ℕ)
    → All IsDigit s
    → All IsDigit t
    → length s ≡ length t
    → value_from a s ≡ some v
    → value_from b t ≡ some v
    → (a ≡ b) × (s ≡ t)
unfolding value_from
value_from-injective [] [] a b v hs ht e x y = (some_inj (x ∙ sym y), refl)
value_from-injective [] (d ∷ t) a b v hs ht e x y = absurd (omega (arith, e))
value_from-injective (c ∷ s) [] a b v hs ht e x y = absurd (omega (arith, e))
value_from-injective (c ∷ s) (d ∷ t) a b v (hc, hs) (hd, ht) e x y =
    let (heads, same) =
      value_from-injective s t (a * 10 + (c - b'0')) (b * 10 + (d - b'0')) v hs ht
        (omega (arith, e)) (sym (value_from-step a c s hc) ∙ x)
        (sym (value_from-step b d t hd) ∙ y) in
    let high : a ≡ b = omega (arith, hc, hd, heads) in
    let low : c ≡ d = omega (arith, hc, hd, heads) in
    (high, ap (λ r. c ∷ r) same ∙ ap (λ r. r ∷ t) low)

value_from-total : (s : Bytes) (a : ℕ) → All IsDigit s → (v : ℕ) × (value_from a s ≡ some v)
unfolding value_from
value_from-total [] a h = (a, refl)
value_from-total (c ∷ s) a (hc, hs) =
    let (v, e) = value_from-total s (a * 10 + (c - b'0')) hs in (v, value_from-step a c s hc ∙ e)

value_from-bound :
    (s : Bytes) (a q v : ℕ)
    → All IsDigit s
    → a < q
    → value_from a s ≡ some v
    → v < q * 10 ^ length s
unfolding value_from
value_from-bound [] a q v h small e = let same : a ≡ v = some_inj e in omega (arith, same)
value_from-bound (c ∷ s) a q v (hc, hs) small e =
    let less =
      value_from-bound s (a * 10 + (c - b'0')) (q * 10) v hs (omega (arith, hc))
        (sym (value_from-step a c s hc) ∙ e) in
    subst (λ p. v < p)
      (mul_assoc q 10 (10 ^ length s)
        ∙ ap (λ p. q * p) (mul_comm 10 (10 ^ length s) ∙ sym (pow-suc 10 (length s))))
      less

value_from-zeros : (n : ℕ) (s : Bytes) → value_from 0 (replicate n b'0' ++ s) ≡ value_from 0 s
unfolding value_from
value_from-zeros zero s = refl
value_from-zeros (suc n) s = value_from-zeros n s

zeros-IsDigit : (n : ℕ) → All IsDigit (replicate n b'0')
zeros-IsDigit zero = tt
zeros-IsDigit (suc n) = ((omega arith, omega arith), zeros-IsDigit n)

length-zeros : (n : ℕ) → length {A = ℕ} (replicate n b'0') ≡ n
length-zeros zero = refl
length-zeros (suc n) = ap suc (length-zeros n)

length-itoa_ℕ :
    (c : ℕ) (s : Bytes) (v : ℕ)
    → All IsDigit (c ∷ s)
    → value_from 0 (c ∷ s) ≡ some v
    → length (itoa_ℕ v) ≤ length (c ∷ s)
unfolding itoa_ℕ
length-itoa_ℕ c s v h e =
    let small = value_from-bound (c ∷ s) 0 1 v h (omega arith) e in
    let short = length-digits (length s) (suc v) v [] (omega (arith, small)) in omega (arith, short)

-- The value of digits, printed with zeros in front up to their width, is those digits again.
pub zeros-itoa_ℕ :
    (s : Bytes) (v : ℕ)
    → All IsDigit s
    → parse_digits s ≡ some v
    → replicate (length s - length (itoa_ℕ v)) b'0' ++ itoa_ℕ v ≡ s
unfolding parse_digits
zeros-itoa_ℕ [] v h e = cc
zeros-itoa_ℕ (c ∷ s) v h e =
    let pad : ℕ = length (c ∷ s) - length (itoa_ℕ v) in
    let short = length-itoa_ℕ c s v h e in
    let long = length-append (replicate pad b'0') (itoa_ℕ v) in
    let zeros = length-zeros pad in
    (value_from-injective (replicate pad b'0' ++ itoa_ℕ v) (c ∷ s) 0 0 v
      (All-++ IsDigit (replicate pad b'0') (itoa_ℕ v) (zeros-IsDigit pad) (itoa_ℕ-IsDigit v)) h
      (omega (arith, short, long, zeros))
      (value_from-zeros pad (itoa_ℕ v)
        ∙ sym (parse_digits-value (itoa_ℕ v) (itoa_ℕ-ne-nil v))
        ∙ parse_digits-itoa_ℕ v)
      e).1

pub parse_digits-total : (s : Bytes) → s ≢ [] → All IsDigit s → (v : ℕ) × (parse_digits s ≡ some v)
parse_digits-total s some_digit h =
    let (v, e) = value_from-total s 0 h in (v, parse_digits-value s some_digit ∙ e)
