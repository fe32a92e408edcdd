-- ===== src/Encoders/Nodelist/Expand.antt =====
-- internal/encoders/expand.go: ExpandNodelist, expandItem, splitTopLevel and allDigits.
use slurm_shim.Common.{
  ℕ, zero, suc, ◌+◌, ◌-◌, Bool, true, false, ◌&&◌, ◌||◌, not, List, [], ◌∷◌, ◌++◌, Option, none,
  some, ◌==◌, ltb, if◌then◌else◌, length, replicate, take, drop, Result, ok, err, ◌>>=◌,
}
use slurm_shim.Text.Bytes.{Bytes, is_digit, index_byte, contains_byte}
use slurm_shim.Text.Split.{split}
use slurm_shim.Text.Decimal.{itoa_ℕ, max_int}
use slurm_shim.Encoders.Nodelist.{must_atoi}

-- ErrInvalidHostlist, with the text that its reason shows. `never_ends` is the model's: the loop of
-- expandItem up to the greatest int does not end, since its counter wraps around below the bound.
pub data HostlistError : Type 0 where
  empty_input : HostlistError
  empty_block : HostlistError
  unmatched_open : HostlistError
  unmatched_close : HostlistError
  unmatched_close_in : Bytes → HostlistError
  unmatched_open_in : Bytes → HostlistError
  malformed_brackets : Bytes → HostlistError
  non_numeric_value : Bytes → HostlistError
  non_numeric_range : Bytes → HostlistError
  descending_range : Bytes → HostlistError
  never_ends : HostlistError

abbrev pub every_digit : Bytes → Bool
every_digit [] = true
every_digit (c ∷ s) = is_digit c && every_digit s

-- allDigits
abbrev pub all_digits : Bytes → Bool
all_digits [] = false
all_digits (c ∷ s) = every_digit (c ∷ s)

-- %0*d
unfoldable pub zero_padded : ℕ → ℕ → Bytes
unfolding itoa_ℕ
zero_padded width n = let s = itoa_ℕ n in replicate (width - length s) b'0' ++ s

-- The loop over `count` numbers from `n` on.
unfoldable pub numbered : ℕ → Bytes → ℕ → Bytes → ℕ → List Bytes
unfolding zero_padded
numbered zero prefix width suffix n = []
numbered (suc count) prefix width suffix n =
    (prefix ++ (zero_padded width n ++ suffix)) ∷ numbered count prefix width suffix (suc n)

unfoldable pub expand_range :
    Bytes → Bytes → Bytes → Bytes → Bytes → Result HostlistError (List Bytes)
unfolding must_atoi numbered
expand_range prefix it suffix lo hi =
    if not (all_digits lo) || not (all_digits hi)
    then err (non_numeric_range it)
    else if ltb (must_atoi hi) (must_atoi lo)
    then err (descending_range it)
    else if must_atoi hi == max_int
    then err never_ends
    else ok (numbered (must_atoi hi - must_atoi lo + 1) prefix (length lo) suffix (must_atoi lo))

unfoldable pub expand_at : Bytes → Bytes → Bytes → Option ℕ → Result HostlistError (List Bytes)
unfolding expand_range
expand_at prefix it suffix none =
    if not (all_digits it) then err (non_numeric_value it) else ok ((prefix ++ (it ++ suffix)) ∷ [])
expand_at prefix it suffix (some dash) =
    expand_range prefix it suffix (take dash it) (drop (suc dash) it)

-- expandItem
unfoldable pub expand_item : Bytes → Bytes → Bytes → Result HostlistError (List Bytes)
unfolding expand_at
expand_item prefix it suffix = expand_at prefix it suffix (index_byte it b'-')

unfoldable pub expand_items : Bytes → Bytes → List Bytes → Result HostlistError (List Bytes)
unfolding expand_item
expand_items prefix suffix [] = ok []
expand_items prefix suffix (it ∷ items) = do
  expanded ← expand_item prefix it suffix
  rest ← expand_items prefix suffix items
  ok (expanded ++ rest)

-- A block with its first opening bracket and its first closing one.
unfoldable pub expand_closed : Bytes → ℕ → Option ℕ → Result HostlistError (List Bytes)
unfolding expand_items
expand_closed b open_at none = err (unmatched_open_in b)
expand_closed b open_at (some close_at) =
    let suffix = drop (suc close_at) b in
    if ltb close_at open_at
    then err (unmatched_open_in b)
    else if contains_byte suffix b'[' || contains_byte suffix b']'
    then err (malformed_brackets b)
    else expand_items (take open_at b) suffix
        (split (take (close_at - suc open_at) (drop (suc open_at) b)) b',')

unfoldable pub expand_open : Bytes → Option ℕ → Result HostlistError (List Bytes)
unfolding expand_closed
expand_open b none = if contains_byte b b']' then err (unmatched_close_in b) else ok (b ∷ [])
expand_open b (some open_at) = expand_closed b open_at (index_byte b b']')

unfoldable pub expand_block : Bytes → Result HostlistError (List Bytes)
unfolding expand_open
expand_block [] = err empty_block
expand_block (c ∷ b) = expand_open (c ∷ b) (index_byte (c ∷ b) b'[')

unfoldable pub expand_blocks : List Bytes → Result HostlistError (List Bytes)
unfolding expand_block
expand_blocks [] = ok []
expand_blocks (b ∷ blocks) = do
  expanded ← expand_block b
  rest ← expand_blocks blocks
  ok (expanded ++ rest)

-- The part under way, and those behind it.
abbrev pub Parts : Type 0
Parts = Result HostlistError (Bytes × List Bytes)

abbrev pub put : ℕ → Parts → Parts
put c (err e) = err e
put c (ok (part, parts)) = ok (c ∷ part, parts)

abbrev pub new_part : Parts → Parts
new_part (err e) = err e
new_part (ok (part, parts)) = ok ([], part ∷ parts)

abbrev pub at_depth : ℕ → Parts → (ℕ → Parts) → Parts
at_depth zero outside inside = outside
at_depth (suc depth) outside inside = inside depth

unfoldable pub parts_from : Bytes → ℕ → Parts
parts_from [] depth = at_depth depth (ok ([], [])) (λ d. err unmatched_open)
parts_from (c ∷ s) depth =
    if c == b'['
    then put c (parts_from s (suc depth))
    else if c == b']'
    then at_depth depth (err unmatched_close) (λ d. put c (parts_from s d))
    else if c == b','
    then at_depth depth (new_part (parts_from s 0)) (λ d. put c (parts_from s (suc d)))
    else put c (parts_from s depth)

-- splitTopLevel
unfoldable pub split_top_level : Bytes → Result HostlistError (List Bytes)
unfolding parts_from
split_top_level [] = err empty_input
split_top_level (c ∷ s) = do (part, parts) ← parts_from (c ∷ s) 0; ok (part ∷ parts)

-- ExpandNodelist
unfoldable pub expand_nodelist : Bytes → Result HostlistError (List Bytes)
unfolding split_top_level expand_blocks
expand_nodelist s = do blocks ← split_top_level s; expand_blocks blocks
