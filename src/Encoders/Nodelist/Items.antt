-- ===== src/Encoders/Nodelist/Items.antt =====
-- The items of a bracket group of internal/encoders, expanded one by one.
use slurm_shim.Common.{
  ℕ, zero, suc, ◌+◌, ◌-◌, ◌<◌, true, false, List, [], ◌∷◌, ◌++◌, some, ◌≡◌, ◌≢◌, refl, sym, ap, ◌∙◌,
  subst, arith, ◌==◌, ltb, All, length, map, drop, ok, ◌>>=◌, append_assoc, and-true, ==→eq,
  ltb-eq_false, Bool-cases, inl, inr, if-true, if-false,
}
use slurm_shim.Text.Bytes.{
  Bytes, is_digit, IsDigit, Lacks, index_byte-append, index_byte-Lacks, take-append_length, All-imp,
}
use slurm_shim.Text.Decimal.{max_int}
use slurm_shim.Text.Decimal.Width.{zeros-itoa_ℕ, parse_digits-total}
use slurm_shim.Encoders.Nodelist.{
  saturated, must_atoi, Token, item, goes_on, items_from, range_items,
}
use slurm_shim.Encoders.Nodelist.Expand.{
  every_digit, all_digits, zero_padded, numbered, expand_range, expand_at, expand_item,
  expand_items,
}

-- A run of digits, with its value, which the 64 bits hold with one to spare.
abbrev pub IsToken : Token → Type 0
IsToken t =
    All IsDigit t.digits × (t.digits ≢ []) × (t.val ≡ must_atoi t.digits) × (t.val < max_int)

every_digit-true : (s : Bytes) → All IsDigit s → every_digit s ≡ true
every_digit-true [] h = refl
every_digit-true (c ∷ s) ((lo, hi), hs) =
    let digit : is_digit c ≡ true = ground arith in rw digit (every_digit-true s hs)

all_digits-true : (s : Bytes) → s ≢ [] → All IsDigit s → all_digits s ≡ true
all_digits-true [] some_digit h = absurd (some_digit refl)
all_digits-true (c ∷ s) some_digit h = every_digit-true (c ∷ s) h

digits-no_dash : (s : Bytes) → All IsDigit s → Lacks b'-' s
digits-no_dash = All-imp IsDigit (λ c. c ≢ b'-') no_dash
  where
    no_dash : (c : ℕ) → IsDigit c → c ≢ b'-'
    no_dash c (lo, hi) e = omega (arith, lo, e)

-- The value of a token, printed at its width, is the token.
zero_padded-token : (t : Token) → IsToken t → zero_padded (length t.digits) t.val ≡ t.digits
unfolding zero_padded must_atoi saturated
zero_padded-token t (digits, some_digit, value, small) =
    let (v, parsed) = parse_digits-total t.digits some_digit digits in
    let sat : t.val ≡ saturated (some v) = value ∙ ap saturated parsed in
    let exact : t.val ≡ v = exactly v sat in
    subst (λ n. zero_padded (length t.digits) n ≡ t.digits) (sym exact)
      (zeros-itoa_ℕ t.digits v digits parsed)
  where
    exactly : (v : ℕ) → t.val ≡ saturated (some v) → t.val ≡ v
    exactly v sat = elim (Bool-cases (ltb max_int v)) [
      | inl over ↦ absurd (omega (arith, sat ∙ if-true (ltb max_int v) max_int v over, small))
      | inr within ↦ sat ∙ if-false (ltb max_int v) max_int v within
    ]

-- The token `run` numbers behind another, of the same width.
abbrev pub IsRun : Token → Token → ℕ → Type 0
IsRun start last run = (last.val ≡ start.val + run) × (length last.digits ≡ length start.digits)

abbrev pub name_of : Bytes → Bytes → Token → Bytes
name_of prefix suffix t = prefix ++ (t.digits ++ suffix)

pub drop-past : (s : Bytes) (c : ℕ) (t : Bytes) → drop (suc (length s)) (s ++ (c ∷ t)) ≡ t
drop-past [] c t = refl
drop-past (d ∷ s) c t = drop-past s c t

expand_range-tokens :
    (prefix it suffix : Bytes) (start last : Token) (run : ℕ)
    → IsToken start
    → IsToken last
    → IsRun start last run
    → expand_range prefix it suffix start.digits last.digits
      ≡ ok (numbered (suc run) prefix (length start.digits) suffix start.val)
unfolding expand_range
expand_range-tokens prefix it suffix start last run is_start is_last (ahead, wide) =
    let lo = all_digits-true start.digits is_start.1 is_start.0 in
    let hi = all_digits-true last.digits is_last.1 is_last.0 in
    let lo_value : must_atoi start.digits ≡ start.val = sym is_start.2 in
    let hi_value : must_atoi last.digits ≡ last.val = sym is_last.2 in
    let ascending : ltb last.val start.val ≡ false =
      ltb-eq_false last.val start.val (omega (arith, ahead)) in
    let small = is_last.3 in
    let ends : (last.val == max_int) ≡ false = ground (arith, small) in
    let count : last.val - start.val + 1 ≡ suc run = omega (arith, ahead) in
    rw lo (rw hi (rw lo_value (rw hi_value (rw ascending (rw ends (rw count refl))))))

expand_item-item :
    (prefix suffix : Bytes) (start last : Token) (run : ℕ)
    → IsToken start
    → IsToken last
    → IsRun start last run
    → expand_item prefix (item start last run) suffix
      ≡ ok (numbered (suc run) prefix (length start.digits) suffix start.val)
unfolding expand_item expand_at expand_range numbered
expand_item-item prefix suffix start last zero is_start is_last is_run =
    ap (expand_at prefix start.digits suffix)
      (index_byte-Lacks start.digits b'-' (digits-no_dash start.digits is_start.0))
    ∙ rw (all_digits-true start.digits is_start.1 is_start.0)
        (ap (λ d. ok ((prefix ++ (d ++ suffix)) ∷ [])) (sym (zero_padded-token start is_start)))
expand_item-item prefix suffix start last (suc run) is_start is_last is_run =
    ap (expand_at prefix (item start last (suc run)) suffix)
      (index_byte-append start.digits last.digits b'-' (digits-no_dash start.digits is_start.0))
    ∙ ap
        (λ d.
          expand_range prefix (item start last (suc run)) suffix d
            (drop (suc (length start.digits)) (start.digits ++ (b'-' ∷ last.digits))))
        (take-append_length start.digits (b'-' ∷ last.digits))
    ∙ ap (expand_range prefix (item start last (suc run)) suffix start.digits)
        (drop-past start.digits b'-' last.digits)
    ∙ expand_range-tokens prefix (item start last (suc run)) suffix start last (suc run) is_start
        is_last is_run

numbered-snoc :
    (n : ℕ) (prefix suffix : Bytes) (width v : ℕ)
    → numbered (suc n) prefix width suffix v
      ≡ numbered n prefix width suffix v ++ ((prefix ++ (zero_padded width (v + n) ++ suffix)) ∷ [])
unfolding numbered
numbered-snoc zero prefix suffix width v = let same : v + 0 ≡ v = omega arith in rw same refl
numbered-snoc (suc n) prefix suffix width v =
    let shift : v + suc n ≡ suc v + n = omega arith in
    ap (λ r. (prefix ++ (zero_padded width v ++ suffix)) ∷ r)
      (numbered-snoc n prefix suffix width (suc v))
    ∙ ap
        (λ k.
          (prefix ++ (zero_padded width v ++ suffix))
          ∷ (numbered n prefix width suffix (suc v)
              ++ ((prefix ++ (zero_padded width k ++ suffix)) ∷ [])))
        (sym shift)

run_longer :
    (prefix suffix : Bytes) (start t : Token) (run : ℕ) (names : List Bytes)
    → IsToken t
    → IsRun start t (suc run)
    → numbered (suc (suc run)) prefix (length start.digits) suffix start.val ++ names
      ≡ numbered (suc run) prefix (length start.digits) suffix start.val
        ++ (name_of prefix suffix t ∷ names)
run_longer prefix suffix start t run names is_token (ahead, wide) =
    ap (λ r. r ++ names) (numbered-snoc (suc run) prefix suffix (length start.digits) start.val)
    ∙ append_assoc (numbered (suc run) prefix (length start.digits) suffix start.val)
        ((prefix ++ (zero_padded (length start.digits) (start.val + suc run) ++ suffix)) ∷ []) names
    ∙ ap
        (λ d.
          numbered (suc run) prefix (length start.digits) suffix start.val
          ++ ((prefix ++ (d ++ suffix)) ∷ names))
        (ap (zero_padded (length start.digits)) (sym ahead)
          ∙ ap (λ w. zero_padded w t.val) (sym wide)
          ∙ zero_padded-token t is_token)

pub expand_items-items_from :
    (toks : List Token) (prefix suffix : Bytes) (start last : Token) (run : ℕ)
    → IsToken start
    → IsToken last
    → IsRun start last run
    → All IsToken toks
    → expand_items prefix suffix (items_from start last run toks)
      ≡ ok (
          numbered (suc run) prefix (length start.digits) suffix start.val
          ++ map (name_of prefix suffix) toks)
unfolding expand_items items_from
expand_items-items_from [] prefix suffix start last run is_start is_last is_run h =
    ap (λ r. r >>= λ expanded. ok (expanded ++ []))
      (expand_item-item prefix suffix start last run is_start is_last is_run)
expand_items-items_from (t ∷ toks) prefix suffix start last run is_start is_last is_run (ht, hs) =
    elim (Bool-cases (goes_on last t)) [
      | inl on ↦ rw on (
          let (next, wide) =
            and-true (t.val == last.val + 1) (length t.digits == length last.digits) on in
          let value = ==→eq t.val (last.val + 1) next in
          let width = ==→eq (length t.digits) (length last.digits) wide in
          let ahead : t.val ≡ start.val + suc run = omega (arith, value, is_run.0) in
          let run_on : IsRun start t (suc run) = (ahead, width ∙ is_run.1) in
          expand_items-items_from toks prefix suffix start t (suc run) is_start ht run_on hs
          ∙ ap ok
              (run_longer prefix suffix start t run (map (name_of prefix suffix) toks) ht run_on))
      | inr off ↦ rw off (
          ap
            (λ r. r >>= λ expanded.
              expand_items prefix suffix (items_from t t 0 toks) >>= λ rest. ok (expanded ++ rest))
            (expand_item-item prefix suffix start last run is_start is_last is_run)
          ∙ ap
              (λ r. r >>= λ rest.
                ok (numbered (suc run) prefix (length start.digits) suffix start.val ++ rest))
              (expand_items-items_from toks prefix suffix t t 0 ht ht (omega arith, refl) hs)
          ∙ ap
              (λ d. ok (
                numbered (suc run) prefix (length start.digits) suffix start.val
                ++ ((prefix ++ (d ++ suffix)) ∷ map (name_of prefix suffix) toks)))
              (zero_padded-token t ht))
    ]

-- Expanding the items of tokens gives the tokens back, each in its name.
pub expand_items-range_items :
    (t : Token) (toks : List Token) (prefix suffix : Bytes)
    → All IsToken (t ∷ toks)
    → expand_items prefix suffix (range_items (t ∷ toks))
      ≡ ok (map (name_of prefix suffix) (t ∷ toks))
unfolding range_items numbered
expand_items-range_items t toks prefix suffix (ht, hs) =
    expand_items-items_from toks prefix suffix t t 0 ht ht (omega arith, refl) hs
    ∙ ap (λ d. ok ((prefix ++ (d ++ suffix)) ∷ map (name_of prefix suffix) toks))
        (zero_padded-token t ht)
