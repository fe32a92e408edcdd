-- ===== src/Encoders/Nodelist/Names.antt =====
-- The names that internal/encoders takes apart, and the blocks that it finds in a text again.
use slurm_shim.Common.{
  ℕ, ◌<◌, Bool, true, [], ◌∷◌, ◌++◌, Option, none, some, ◌≡◌, ◌≢◌, refl, sym, ap, ◌∙◌, subst, arith,
  ◌==◌, ltb, All, Bool-cases, inl, inr, some_inj, and-true, ltb→lt, not, ◌&&◌, ◌||◌, if-true,
  if-false,
}
use slurm_shim.Text.Bytes.{Bytes, IsDigit, is_digit}
use slurm_shim.Text.Decimal.{max_int}
use slurm_shim.Encoders.Nodelist.{must_atoi, NameParts, put_before, split_name, token_of}
use slurm_shim.Encoders.Nodelist.Items.{IsToken, name_of}
use slurm_shim.Encoders.Nodelist.Blocks.{IsPlainByte, IsPlain}

-- The parts of a name stand in it one after the other, and the digits are some.
abbrev pub IsParts : Bytes → NameParts → Type 0
IsParts s parts =
    (s ≡ parts.prefix ++ (parts.digits ++ parts.suffix))
    × All IsDigit parts.digits
    × (parts.digits ≢ [])

is_digit-IsDigit : (c : ℕ) → is_digit c ≡ true → IsDigit c
is_digit-IsDigit c h = (ground (arith, h), ground (arith, h))

more_before-IsParts :
    (c : ℕ) (s prefix digits suffix : Bytes) (parts : NameParts)
    → IsParts s (record { prefix = prefix; digits = digits; suffix = suffix })
    → put_before c s (some (record { prefix = prefix; digits = digits; suffix = suffix }))
      ≡ some parts
    → IsParts (c ∷ s) parts
more_before-IsParts c s [] digits suffix parts (same, all_digits, some_digit) e =
    elim (Bool-cases (is_digit c)) [
      | inl digit ↦
          subst (IsParts (c ∷ s))
            (some_inj (sym (if-true (is_digit c) (some more) (some before) digit) ∙ e))
            (ap (λ r. c ∷ r) same, (is_digit-IsDigit c digit, all_digits), (λ f. cc))
      | inr other ↦
          subst (IsParts (c ∷ s))
            (some_inj (sym (if-false (is_digit c) (some more) (some before) other) ∙ e))
            (ap (λ r. c ∷ r) same, all_digits, some_digit)
    ]
  where
    more : NameParts
    more = record { prefix = []; digits = c ∷ digits; suffix = suffix }

    before : NameParts
    before = record { prefix = c ∷ []; digits = digits; suffix = suffix }
more_before-IsParts c s (d ∷ prefix) digits suffix parts (same, all_digits, some_digit) e =
    subst (IsParts (c ∷ s)) (some_inj e) (ap (λ r. c ∷ r) same, all_digits, some_digit)

put_before-IsParts :
    (c : ℕ) (s : Bytes) (o : Option NameParts) (parts : NameParts)
    → ((q : NameParts) → o ≡ some q → IsParts s q)
    → put_before c s o ≡ some parts
    → IsParts (c ∷ s) parts
put_before-IsParts c s none parts h e = elim (Bool-cases (is_digit c)) [
  | inl digit ↦
      subst (IsParts (c ∷ s))
        (some_inj (sym (if-true (is_digit c) (some first_digit) none digit) ∙ e))
        (refl, (is_digit-IsDigit c digit, tt), (λ f. cc))
  | inr other ↦
      absurd (none-ne-some (sym (if-false (is_digit c) (some first_digit) none other) ∙ e))
]
  where
    first_digit : NameParts
    first_digit = record { prefix = []; digits = c ∷ []; suffix = s }

    none-ne-some : ◌≡◌ {A = Option NameParts} none (some parts) → ⊥
    none-ne-some f = cc
put_before-IsParts c s (some q) parts h e =
    more_before-IsParts c s q.prefix q.digits q.suffix parts (h q refl) e

pub split_name-IsParts :
    (s : Bytes) (parts : NameParts) → split_name s ≡ some parts → IsParts s parts
unfolding split_name
split_name-IsParts [] parts e = cc
split_name-IsParts (c ∷ s) parts e =
    put_before-IsParts c s (split_name s) parts (λ q f. split_name-IsParts s q f) e

pub All-front : (P : ℕ → Type 0) (s t : Bytes) → All P (s ++ t) → All P s
All-front P [] t h = tt
All-front P (c ∷ s) t (hc, hs) = (hc, All-front P s t hs)

pub All-back : (P : ℕ → Type 0) (s t : Bytes) → All P (s ++ t) → All P t
All-back P [] t h = h
All-back P (c ∷ s) t (hc, hs) = All-back P s t hs

-- The number that a name's run of digits stands for.
abbrev pub number_of : Option NameParts → ℕ
number_of none = 0
number_of (some parts) = must_atoi parts.digits

-- A host name: some bytes, none of which a nodelist uses for itself, with a number below the
-- greatest int.
abbrev pub IsHost : Bytes → Type 0
IsHost h = (h ≢ []) × IsPlain h × (number_of (split_name h) < max_int)

-- The parts of a host name make a token and a name again.
pub split_name-IsToken :
    (h : Bytes) (parts : NameParts)
    → IsHost h
    → split_name h ≡ some parts
    → IsToken (token_of parts.digits)
      × IsPlain parts.prefix
      × IsPlain parts.suffix
      × (name_of parts.prefix parts.suffix (token_of parts.digits) ≡ h)
unfolding token_of
split_name-IsToken h parts (some_byte, plain, small) e =
    let (same, all_digits, some_digit) = split_name-IsParts h parts e in
    let plain_parts = subst IsPlain same plain in
    (
      (all_digits, some_digit, refl, subst (λ o. number_of o < max_int) e small),
      All-front IsPlainByte parts.prefix (parts.digits ++ parts.suffix) plain_parts,
      All-back IsPlainByte parts.digits parts.suffix
          (All-back IsPlainByte parts.prefix (parts.digits ++ parts.suffix) plain_parts),
      sym same,
    )

-- A test of a name's bytes, for names that are given.
abbrev pub is_plain : Bytes → Bool
is_plain [] = true
is_plain (c ∷ s) = not (c == b',' || c == b'[' || c == b']') && is_plain s

pub is_plain-IsPlain : (s : Bytes) → is_plain s ≡ true → IsPlain s
is_plain-IsPlain [] h = tt
is_plain-IsPlain (c ∷ s) h =
    let (here, behind) = and-true (not (c == b',' || c == b'[' || c == b']')) (is_plain s) h in
    (
      (
        (λ e. ground (arith, here, e)),
        (λ e. ground (arith, here, e)),
        (λ e. ground (arith, here, e)),
      ),
      is_plain-IsPlain s behind,
    )

-- A test of a name's number.
pub number_of-IsHost :
    (c : ℕ) (h : Bytes)
    → is_plain (c ∷ h) ≡ true
    → ltb (number_of (split_name (c ∷ h))) max_int ≡ true
    → IsHost (c ∷ h)
number_of-IsHost c h plain small = (
  (λ e. cc),
  is_plain-IsPlain (c ∷ h) plain,
  ltb→lt (number_of (split_name (c ∷ h))) max_int small,
)
