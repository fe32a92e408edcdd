-- ===== src/Text/Split.antt =====
-- strings.Split by one byte, strings.Join, strings.Cut, strings.Fields and strings.TrimSpace.
pub mod Trim
use slurm_shim.Common.{
  ℕ, suc, Bool, true, false, ◌&&◌, ◌||◌, List, [], ◌∷◌, ◌++◌, Option, none, some, ◌≡◌, ◌≢◌, refl,
  ap, arith, ◌==◌, leb, if◌then◌else◌, All, take, drop,
}
use slurm_shim.Text.Bytes.{Bytes, codes, Lacks, index_byte}

-- The part up to the next separator, and the parts behind it.
split_from : ℕ → Bytes → Bytes × List Bytes
split_from sep [] = ([], [])
split_from sep (c ∷ s) =
    let (part, parts) = split_from sep s in
    if c == sep then ([], part ∷ parts) else (c ∷ part, parts)

-- strings.Split(s, sep) for a separator of one byte: always one part at least.
unfoldable pub split : Bytes → ℕ → List Bytes
unfolding split_from
split s sep = let (part, parts) = split_from sep s in part ∷ parts

-- strings.Join(parts, sep) for a separator of one byte.
unfoldable pub join : List Bytes → ℕ → Bytes
join [] sep = []
join (p ∷ []) sep = p
join (p ∷ q ∷ ps) sep = p ++ (sep ∷ join (q ∷ ps) sep)

-- The text at the index of a separator, without it.
unfoldable pub cut_at : Bytes → Option ℕ → Bytes × Bytes × Bool
cut_at s none = (s, [], false)
cut_at s (some i) = (take i s, drop (suc i) s, true)

-- strings.Cut(s, sep): the text before and behind the first separator, and whether there is one.
unfoldable pub cut : Bytes → ℕ → Bytes × Bytes × Bool
unfolding cut_at index_byte
cut s sep = cut_at s (index_byte s sep)

-- The white space of ASCII.
abbrev pub is_space : ℕ → Bool
is_space c = c == 32 || (leb 9 c && leb c 13)

unfoldable pub trim_left : Bytes → Bytes
trim_left [] = []
trim_left (c ∷ s) = let rest = trim_left s in if is_space c then rest else c ∷ s

trim_right : Bytes → Bytes
trim_right [] = []
trim_right (c ∷ s) = elim (trim_right s) [
  | [] ↦ if is_space c then [] else c ∷ []
  | d ∷ r ↦ c ∷ d ∷ r
]

-- strings.TrimSpace, over ASCII.
unfoldable pub trim_space : Bytes → Bytes
unfolding trim_left trim_right
trim_space s = trim_right (trim_left s)

-- The field that the text begins with, which may be empty, and the fields behind it.
fields_from : Bytes → Bytes × List Bytes
fields_from [] = ([], [])
fields_from (c ∷ s) =
    let (word, words) = fields_from s in
    if is_space c
    then ([], elim word [ [] ↦ words | d ∷ r ↦ (d ∷ r) ∷ words ])
    else (c ∷ word, words)

-- strings.Fields, over ASCII: the runs of bytes that are no white space.
unfoldable pub fields : Bytes → List Bytes
unfolding fields_from
fields s = let (word, words) = fields_from s in elim word [ [] ↦ words | d ∷ r ↦ (d ∷ r) ∷ words ]

split_from-Lacks : (sep : ℕ) (p : Bytes) → Lacks sep p → split_from sep p ≡ (p, [])
unfolding split_from
split_from-Lacks sep [] h = refl
split_from-Lacks sep (c ∷ p) (hc, hp) = ground (arith, split_from-Lacks sep p hp)

split_from-append :
    (sep : ℕ) (p t : Bytes)
    → Lacks sep p
    → split_from sep (p ++ sep ∷ t) ≡ (p, (split_from sep t).0 ∷ (split_from sep t).1)
unfolding split_from
split_from-append sep [] t h = ground arith
split_from-append sep (c ∷ p) t (hc, hp) = ground (arith, split_from-append sep p t hp)

-- Splitting a join gives the parts back, if there is a part and none holds the separator.
pub split-join :
    (parts : List Bytes) (b : ℕ) → parts ≢ [] → All (Lacks b) parts → split (join parts b) b ≡ parts
unfolding split join
split-join [] b some_part _ = absurd (some_part refl)
split-join (part ∷ []) b _ (clear, _) = rw (split_from-Lacks b part clear)
split-join (part ∷ next ∷ parts) b _ (clear, others) =
    let rest = split-join (next ∷ parts) b (cc) others in
    rw (split_from-append b part (join (next ∷ parts) b) clear) (ap (λ r. part ∷ r) rest)

words : fields (codes " a  bc\td ") ≡ codes "a" ∷ codes "bc" ∷ codes "d" ∷ []
unfolding fields
words = refl

trimmed : trim_space (codes "  a b\n") ≡ codes "a b"
unfolding trim_space
trimmed = refl

cut_once : cut (codes "a:b:c") b':' ≡ (codes "a", codes "b:c", true)
unfolding cut index_byte
cut_once = refl

no_separator :
    (split [] b',' ≡ [] ∷ []) × (split (codes "a,,b") b',' ≡ codes "a" ∷ [] ∷ codes "b" ∷ [])
unfolding split
no_separator = (refl, refl)
