-- ===== src/Encoders/Nodelist.antt =====
-- internal/encoders/nodelist.go: CompressNodelist, rangeItems and splitName. A host name is its
-- bytes.
pub mod Expand
pub mod Items
pub mod Blocks
pub mod Names
pub mod TopLevel
pub mod Charset
pub mod RoundTrip
use slurm_shim.Common.{
  ℕ, zero, suc, ◌+◌, Bool, true, false, ◌&&◌, List, [], ◌∷◌, ◌++◌, Option, none, some, ◌==◌, ltb,
  if◌then◌else◌, length, map,
}
use slurm_shim.Text.Bytes.{Bytes, bytes_eq, is_digit}
use slurm_shim.Text.Split.{join}
use slurm_shim.Text.Decimal.{parse_digits, max_int}

-- strconv.Atoi of digits with its error dropped: the greatest int where the value leaves the 64
-- bits, and 0 for a text without digits.
unfoldable pub saturated : Option ℕ → ℕ
saturated none = 0
saturated (some v) = if ltb max_int v then max_int else v

-- mustAtoi
unfoldable pub must_atoi : Bytes → ℕ
unfolding parse_digits saturated
must_atoi s = saturated (parse_digits s)

-- A host name in three: what is in front of the last run of digits, the run, and what is behind it.
pub record NameParts : Type 0 where
  pub prefix : Bytes
  pub digits : Bytes
  pub suffix : Bytes

-- The parts of a name with one byte more in front of `s`, which has the parts given.
abbrev pub put_before : ℕ → Bytes → Option NameParts → Option NameParts
put_before c s none =
    if is_digit c then some (record { prefix = []; digits = c ∷ []; suffix = s }) else none
put_before c s (some parts) = elim parts.prefix [
  | [] ↦
      if is_digit c
      then some (record parts { digits = c ∷ parts.digits })
      else some (record parts { prefix = c ∷ [] })
  | d ∷ prefix ↦ some (record parts { prefix = c ∷ d ∷ prefix })
]

-- splitName, `none` where the name has no digit.
unfoldable pub split_name : Bytes → Option NameParts
split_name [] = none
split_name (c ∷ s) = put_before c s (split_name s)

-- token
pub record Token : Type 0 where
  pub digits : Bytes
  pub val : ℕ

unfoldable pub token_of : Bytes → Token
unfolding must_atoi
token_of digits = record { digits = digits; val = must_atoi digits }

-- The item of the tokens from `start` to `last`, which is `run` tokens behind it.
abbrev pub item : Token → Token → ℕ → Bytes
item start last zero = start.digits
item start last (suc run) = start.digits ++ (b'-' ∷ last.digits)

-- Whether a range goes on from one token to the next.
abbrev pub goes_on : Token → Token → Bool
goes_on last t = t.val == last.val + 1 && length t.digits == length last.digits

unfoldable pub items_from : Token → Token → ℕ → List Token → List Bytes
items_from start last run [] = item start last run ∷ []
items_from start last run (t ∷ toks) =
    let longer = items_from start t (suc run) toks in
    let anew = items_from t t 0 toks in
    if goes_on last t then longer else item start last run ∷ anew

-- rangeItems
unfoldable pub range_items : List Token → List Bytes
unfolding items_from
range_items [] = []
range_items (t ∷ toks) = items_from t t 0 toks

-- A run of consecutive names with the same prefix and suffix: its first token, and the others.
pub record Group : Type 0 where
  pub prefix : Bytes
  pub suffix : Bytes
  pub first : Token
  pub others : List Token

unfoldable pub block : Group → Bytes
unfolding range_items
block g = elim g.others [
  | [] ↦ g.prefix ++ (g.first.digits ++ g.suffix)
  | t ∷ toks ↦
      g.prefix ++ (b'[' ∷ (join (range_items (g.first ∷ t ∷ toks)) b',' ++ (b']' ∷ g.suffix)))
]

abbrev pub same_parts : NameParts → Group → Bool
same_parts parts g = bytes_eq parts.prefix g.prefix && bytes_eq parts.suffix g.suffix

unfoldable pub new_group : NameParts → Group
unfolding token_of
new_group parts = record {
  prefix = parts.prefix;
  suffix = parts.suffix;
  first = token_of parts.digits;
  others = [];
}

-- One name behind the group that is gathered so far; `next` goes on with a group.
unfoldable pub gather :
    Bytes → Option NameParts → Option Group → (Option Group → List Bytes) → List Bytes
unfolding token_of block
gather h none none next = h ∷ next none
gather h none (some g) next = block g ∷ h ∷ next none
gather h (some parts) none next = next (some (new_group parts))
gather h (some parts) (some g) next =
    if same_parts parts g
    then next (some (record g { others = g.others ++ (token_of parts.digits ∷ []) }))
    else block g ∷ next (some (new_group parts))

unfoldable pub blocks_from : List Bytes → Option Group → List Bytes
unfolding block split_name gather
blocks_from [] none = []
blocks_from [] (some g) = block g ∷ []
blocks_from (h ∷ hosts) g = gather h (split_name h) g (blocks_from hosts)

-- CompressNodelist
unfoldable pub compress_nodelist : List Bytes → Bytes
unfolding blocks_from
compress_nodelist hosts = join (blocks_from hosts none) b','
