-- ===== src/Encoders/Nodelist/Blocks.antt =====
-- What ExpandNodelist of internal/encoders/expand.go makes of the blocks that CompressNodelist
-- writes: names, and groups in brackets.
use slurm_shim.Common.{
  ℕ, zero, suc, ◌+◌, ◌-◌, ◌≤◌, false, List, [], ◌∷◌, ◌++◌, some, ◌≡◌, ◌≢◌, refl, sym, ap, ◌∙◌,
  arith, ltb, if◌then◌else◌, All, length, map, take, drop, ok, err, append_assoc, ltb-eq_false,
  Bool-cases, inl, inr, length-append,
}
use slurm_shim.Text.Bytes.{
  Bytes, IsDigit, Lacks, index_byte, index_byte-append, index_byte-Lacks, take-append_length,
  All-imp, All-append, contains_byte,
}
use slurm_shim.Text.Split.{join, split, split-join}
use slurm_shim.Encoders.Nodelist.{Token, Group, item, goes_on, items_from, range_items, block}
use slurm_shim.Encoders.Nodelist.Expand.{
  HostlistError, expand_items, expand_closed, expand_open, expand_block,
}
use slurm_shim.Encoders.Nodelist.Items.{IsToken, name_of, expand_items-range_items, drop-past}

-- A byte that a nodelist does not use for itself.
abbrev pub IsPlainByte : ℕ → Type 0
IsPlainByte c = (c ≢ b',') × (c ≢ b'[') × (c ≢ b']')

abbrev pub IsPlain : Bytes → Type 0
IsPlain = All IsPlainByte

pub plain-no_open : (s : Bytes) → IsPlain s → Lacks b'[' s
plain-no_open = All-imp IsPlainByte (λ c. c ≢ b'[') (λ c h. h.1)

pub plain-no_close : (s : Bytes) → IsPlain s → Lacks b']' s
plain-no_close = All-imp IsPlainByte (λ c. c ≢ b']') (λ c h. h.2)

pub digits-IsPlain : (s : Bytes) → All IsDigit s → IsPlain s
digits-IsPlain = All-imp IsDigit IsPlainByte plain_digit
  where
    plain_digit : (c : ℕ) → IsDigit c → IsPlainByte c
    plain_digit c (lo, hi) =
        ((λ e. omega (arith, lo, e)), (λ e. omega (arith, hi, e)), (λ e. omega (arith, hi, e)))

contains_byte-Lacks : (s : Bytes) (b : ℕ) → Lacks b s → contains_byte s b ≡ false
unfolding contains_byte
contains_byte-Lacks [] b h = refl
contains_byte-Lacks (c ∷ s) b (hc, hs) = ground (arith, contains_byte-Lacks s b hs)

expand_block-open : (b : Bytes) → b ≢ [] → expand_block b ≡ expand_open b (index_byte b b'[')
unfolding expand_block
expand_block-open [] some_byte = absurd (some_byte refl)
expand_block-open (c ∷ b) some_byte = refl

pub expand_block-plain : (h : Bytes) → h ≢ [] → IsPlain h → expand_block h ≡ ok (h ∷ [])
unfolding expand_open
expand_block-plain h some_byte plain =
    expand_block-open h some_byte
    ∙ ap (expand_open h) (index_byte-Lacks h b'[' (plain-no_open h plain))
    ∙ ap (λ found. if found then err (HostlistError.unmatched_close_in h) else ok (h ∷ []))
        (contains_byte-Lacks h b']' (plain-no_close h plain))

-- The bytes of an item, and with the comma those of several.
abbrev pub IsItemByte : ℕ → Type 0
IsItemByte c = (b'-' ≤ c) × (c ≤ b'9')

abbrev pub IsListByte : ℕ → Type 0
IsListByte c = (b',' ≤ c) × (c ≤ b'9')

digits-IsItem : (s : Bytes) → All IsDigit s → All IsItemByte s
digits-IsItem = All-imp IsDigit IsItemByte (λ c h. (omega (arith, h.0), h.1))

item-bytes :
    (start last : Token) (run : ℕ)
    → IsToken start
    → IsToken last
    → All IsItemByte (item start last run)
item-bytes start last zero is_start is_last = digits-IsItem start.digits is_start.0
item-bytes start last (suc run) is_start is_last =
    All-append IsItemByte start.digits (b'-' ∷ last.digits) (digits-IsItem start.digits is_start.0)
      ((omega arith, omega arith), digits-IsItem last.digits is_last.0)

pub items_from-bytes :
    (toks : List Token) (start last : Token) (run : ℕ)
    → IsToken start
    → IsToken last
    → All IsToken toks
    → All (All IsItemByte) (items_from start last run toks)
unfolding items_from
items_from-bytes [] start last run is_start is_last h =
    (item-bytes start last run is_start is_last, tt)
items_from-bytes (t ∷ toks) start last run is_start is_last (ht, hs) =
    elim (Bool-cases (goes_on last t)) [
      | inl on ↦ rw on (items_from-bytes toks start t (suc run) is_start ht hs)
      | inr off ↦
          rw off (item-bytes start last run is_start is_last, items_from-bytes toks t t 0 ht ht hs)
    ]

items_from-ne-nil :
    (toks : List Token) (start last : Token) (run : ℕ) → items_from start last run toks ≢ []
unfolding items_from
items_from-ne-nil [] start last run = λ e. cc
items_from-ne-nil (t ∷ toks) start last run = elim (Bool-cases (goes_on last t)) [
  | inl on ↦ rw on (items_from-ne-nil toks start t (suc run))
  | inr off ↦ rw off (λ e. cc)
]

wider : (s : Bytes) → All IsItemByte s → All IsListByte s
wider = All-imp IsItemByte IsListByte (λ c h. (omega (arith, h.0), h.1))

pub join-bytes :
    (items : List Bytes) → All (All IsItemByte) items → All IsListByte (join items b',')
unfolding join
join-bytes [] h = tt
join-bytes (it ∷ []) (h, hs) = wider it h
join-bytes (it ∷ next ∷ items) (h, hs) =
    All-append IsListByte it (b',' ∷ join (next ∷ items) b',') (wider it h)
      ((omega arith, omega arith), join-bytes (next ∷ items) hs)

lack_comma : (items : List Bytes) → All (All IsItemByte) items → All (Lacks b',') items
lack_comma [] h = tt
lack_comma (it ∷ items) (h, hs) =
    (All-imp IsItemByte (λ c. c ≢ b',') (λ c g e. omega (arith, g.0, e)) it h, lack_comma items hs)

-- A group whose prefix and suffix are plain, and whose tokens are in range.
abbrev pub IsGroup : Group → Type 0
IsGroup g = IsPlain g.prefix × IsPlain g.suffix × IsToken g.first × All IsToken g.others

abbrev pub names : Group → List Bytes
names g = map (name_of g.prefix g.suffix) (g.first ∷ g.others)

pub append-ne-nil : (s t : Bytes) → t ≢ [] → s ++ t ≢ []
append-ne-nil [] t h = h
append-ne-nil (c ∷ s) t h = λ e. cc

-- A bracket group of plain prefix and suffix, around a text without brackets.
expand_block-brackets :
    (prefix inner suffix : Bytes)
    → IsPlain prefix
    → All IsListByte inner
    → IsPlain suffix
    → expand_block (prefix ++ (b'[' ∷ (inner ++ (b']' ∷ suffix))))
      ≡ expand_items prefix suffix (split inner b',')
unfolding expand_open expand_closed
expand_block-brackets prefix inner suffix hp hi hs =
    expand_block-open whole (append-ne-nil prefix (b'[' ∷ (inner ++ (b']' ∷ suffix))) (λ e. cc))
    ∙ ap (expand_open whole)
        (index_byte-append prefix (inner ++ (b']' ∷ suffix)) b'[' (plain-no_open prefix hp))
    ∙ ap (expand_closed whole (length prefix)) (ap (λ b. index_byte b b']') (sym again) ∙ closes)
    ∙ rw after (rw tail (rw no_open (rw no_close (rw head (rw body (rw count (rw within refl)))))))
  where
    whole : Bytes
    whole = prefix ++ (b'[' ∷ (inner ++ (b']' ∷ suffix)))

    front : Bytes
    front = prefix ++ (b'[' ∷ inner)

    again : front ++ (b']' ∷ suffix) ≡ whole
    again = append_assoc prefix (b'[' ∷ inner) (b']' ∷ suffix)

    inner_open : Lacks b']' inner
    inner_open = All-imp IsListByte (λ c. c ≢ b']') (λ c h e. omega (arith, h.1, e)) inner hi

    closes : index_byte (front ++ (b']' ∷ suffix)) b']' ≡ some (length front)
    closes = index_byte-append front suffix b']' (
        All-append (λ c. c ≢ b']') prefix (b'[' ∷ inner) (plain-no_close prefix hp)
          ((λ e. omega (arith, e)), inner_open))

    long : length front ≡ length prefix + suc (length inner)
    long = length-append prefix (b'[' ∷ inner)

    after : ltb (length (prefix ++ (b'[' ∷ inner))) (length prefix) ≡ false
    after = ltb-eq_false (length front) (length prefix) (omega (arith, long))

    tail :
        drop
          (suc (length (prefix ++ (b'[' ∷ inner))))
          (prefix ++ (b'[' ∷ (inner ++ (b']' ∷ suffix))))
        ≡ suffix
    tail = ap (drop (suc (length front))) (sym again) ∙ drop-past front b']' suffix

    no_open : contains_byte suffix b'[' ≡ false
    no_open = contains_byte-Lacks suffix b'[' (plain-no_open suffix hs)

    no_close : contains_byte suffix b']' ≡ false
    no_close = contains_byte-Lacks suffix b']' (plain-no_close suffix hs)

    head : take (length prefix) (prefix ++ (b'[' ∷ (inner ++ (b']' ∷ suffix)))) ≡ prefix
    head = take-append_length prefix (b'[' ∷ (inner ++ (b']' ∷ suffix)))

    body :
        drop (suc (length prefix)) (prefix ++ (b'[' ∷ (inner ++ (b']' ∷ suffix))))
        ≡ inner ++ (b']' ∷ suffix)
    body = drop-past prefix b'[' (inner ++ (b']' ∷ suffix))

    count : length (prefix ++ (b'[' ∷ inner)) - suc (length prefix) ≡ length inner
    count = omega (arith, long)

    within : take (length inner) (inner ++ (b']' ∷ suffix)) ≡ inner
    within = take-append_length inner (b']' ∷ suffix)

-- A token in its name is some bytes, and plain.
pub name_of-IsPlain :
    (prefix suffix : Bytes) (t : Token)
    → IsPlain prefix
    → IsPlain suffix
    → IsToken t
    → (name_of prefix suffix t ≢ []) × IsPlain (name_of prefix suffix t)
name_of-IsPlain prefix suffix t hp hs ht = (
  append-ne-nil prefix (t.digits ++ suffix) (digits-first t.digits ht.1),
  All-append IsPlainByte prefix (t.digits ++ suffix) hp
      (All-append IsPlainByte t.digits suffix (digits-IsPlain t.digits ht.0) hs),
)
  where
    digits-first : (d : Bytes) → d ≢ [] → d ++ suffix ≢ []
    digits-first [] some_digit = absurd (some_digit refl)
    digits-first (c ∷ d) some_digit = λ e. cc

pub expand_block-group : (g : Group) → IsGroup g → expand_block (block g) ≡ ok (names g)
unfolding block range_items
expand_block-group g (hp, hs, ht, hts) = grouped g.others refl hts
  where
    grouped :
        (others : List Token)
        → g.others ≡ others
        → All IsToken others
        → expand_block (block g) ≡ ok (map (name_of g.prefix g.suffix) (g.first ∷ g.others))
    grouped [] e h =
        let (some_byte, plain) = name_of-IsPlain g.prefix g.suffix g.first hp hs ht in
        rw e (expand_block-plain (name_of g.prefix g.suffix g.first) some_byte plain)
    grouped (t ∷ toks) e (h, hs2) = rw e (
        expand_block-brackets g.prefix (join (range_items (g.first ∷ t ∷ toks)) b',') g.suffix hp
          (join-bytes (range_items (g.first ∷ t ∷ toks))
            (items_from-bytes (t ∷ toks) g.first g.first 0 ht ht (h, hs2)))
          hs
        ∙ ap (expand_items g.prefix g.suffix) (
            split-join (range_items (g.first ∷ t ∷ toks)) b','
              (items_from-ne-nil (t ∷ toks) g.first g.first 0)
              (lack_comma (range_items (g.first ∷ t ∷ toks))
                (items_from-bytes (t ∷ toks) g.first g.first 0 ht ht (h, hs2))))
        ∙ expand_items-range_items g.first (t ∷ toks) g.prefix g.suffix (ht, (h, hs2)))
