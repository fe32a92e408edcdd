-- ===== src/Encoders/Nodelist/TopLevel.antt =====
-- splitTopLevel of internal/encoders/expand.go on the blocks that CompressNodelist joins.
use slurm_shim.Common.{
  Bool, true, false, List, [], ◌∷◌, ◌++◌, ◌≡◌, ◌≢◌, refl, sym, ap, ◌∙◌, arith, ◌==◌, if◌then◌else◌,
  All, Result, ok, ◌>>=◌, append-nil, append_assoc,
}
use slurm_shim.Text.Bytes.{Bytes}
use slurm_shim.Text.Split.{join}
use slurm_shim.Encoders.Nodelist.{Token, Group, block, range_items}
use slurm_shim.Encoders.Nodelist.Expand.{
  HostlistError, Parts, put, new_part, parts_from, split_top_level,
}
use slurm_shim.Encoders.Nodelist.Items.{IsToken, name_of}
use slurm_shim.Encoders.Nodelist.Blocks.{
  IsPlain, IsGroup, IsListByte, join-bytes, items_from-bytes, append-ne-nil, name_of-IsPlain,
}

-- A text in front of the part under way.
abbrev put_all : Bytes → Parts → Parts
put_all [] r = r
put_all (c ∷ s) r = put c (put_all s r)

put_all-append : (s t : Bytes) (r : Parts) → put_all (s ++ t) r ≡ put_all s (put_all t r)
put_all-append [] t r = refl
put_all-append (c ∷ s) t r = ap (put c) (put_all-append s t r)

put_all-ok : (s p : Bytes) (ps : List Bytes) → put_all s (ok (p, ps)) ≡ ok (s ++ p, ps)
put_all-ok [] p ps = refl
put_all-ok (c ∷ s) p ps = ap (put c) (put_all-ok s p ps)

parts_from-plain : (s t : Bytes) → IsPlain s → parts_from (s ++ t) 0 ≡ put_all s (parts_from t 0)
unfolding parts_from
parts_from-plain [] t h = refl
parts_from-plain (c ∷ s) t ((comma, opening, closing), hs) =
    let no_open : (c == b'[') ≡ false = ground (arith, opening) in
    let no_close : (c == b']') ≡ false = ground (arith, closing) in
    let no_comma : (c == b',') ≡ false = ground (arith, comma) in
    rw no_open (rw no_close (rw no_comma (ap (put c) (parts_from-plain s t hs))))

-- Inside a bracket a comma is a byte like the others.
parts_from-inner :
    (s t : Bytes) → All IsListByte s → parts_from (s ++ t) 1 ≡ put_all s (parts_from t 1)
unfolding parts_from
parts_from-inner [] t h = refl
parts_from-inner (c ∷ s) t (hc, hs) =
    let no_open : (c == b'[') ≡ false = ground (arith, hc) in
    let no_close : (c == b']') ≡ false = ground (arith, hc) in
    let rest = parts_from-inner s t hs in
    rw no_open (rw no_close (if-same (c == b',') (ap (put c) rest)))
  where
    if-same :
        (b : Bool)
        → put c (parts_from (s ++ t) 1) ≡ put c (put_all s (parts_from t 1))
        → (if b then put c (parts_from (s ++ t) 1) else put c (parts_from (s ++ t) 1))
          ≡ put c (put_all s (parts_from t 1))
    if-same true e = e
    if-same false e = e

-- A block: some bytes that the scan passes without a cut.
abbrev pub IsBlock : Bytes → Type 0
IsBlock b = (b ≢ []) × ((t : Bytes) → parts_from (b ++ t) 0 ≡ put_all b (parts_from t 0))

pub plain-IsBlock : (h : Bytes) → h ≢ [] → IsPlain h → IsBlock h
plain-IsBlock h some_byte plain = (some_byte, λ t. parts_from-plain h t plain)

brackets-IsBlock :
    (prefix inner suffix : Bytes)
    → IsPlain prefix
    → All IsListByte inner
    → IsPlain suffix
    → IsBlock (prefix ++ (b'[' ∷ (inner ++ (b']' ∷ suffix))))
unfolding parts_from
brackets-IsBlock prefix inner suffix hp hi hs = (
  append-ne-nil prefix (b'[' ∷ (inner ++ (b']' ∷ suffix))) (λ e. cc),
  λ t.
      ap (λ s. parts_from s 0) (append_assoc prefix (b'[' ∷ (inner ++ (b']' ∷ suffix))) t)
      ∙ parts_from-plain prefix (b'[' ∷ ((inner ++ (b']' ∷ suffix)) ++ t)) hp
      ∙ ap (λ s. put_all prefix (put b'[' (parts_from s 1))) (append_assoc inner (b']' ∷ suffix) t)
      ∙ ap (λ r. put_all prefix (put b'[' r)) (parts_from-inner inner (b']' ∷ (suffix ++ t)) hi)
      ∙ ap (λ r. put_all prefix (put b'[' (put_all inner (put b']' r))))
          (parts_from-plain suffix t hs)
      ∙ ap (λ r. put_all prefix (put b'[' r))
          (sym (put_all-append inner (b']' ∷ suffix) (parts_from t 0)))
      ∙ sym (put_all-append prefix (b'[' ∷ (inner ++ (b']' ∷ suffix))) (parts_from t 0)),
)

pub group-IsBlock : (g : Group) → IsGroup g → IsBlock (block g)
unfolding block range_items
group-IsBlock g (hp, hs, ht, hts) = grouped g.others refl hts
  where
    grouped : (others : List Token) → g.others ≡ others → All IsToken others → IsBlock (block g)
    grouped [] e h =
        let (some_byte, plain) = name_of-IsPlain g.prefix g.suffix g.first hp hs ht in
        rw e (plain-IsBlock (name_of g.prefix g.suffix g.first) some_byte plain)
    grouped (t ∷ toks) e h = rw e (
        brackets-IsBlock g.prefix (join (range_items (g.first ∷ t ∷ toks)) b',') g.suffix hp
          (join-bytes (range_items (g.first ∷ t ∷ toks))
            (items_from-bytes (t ∷ toks) g.first g.first 0 ht ht h))
          hs)

-- Splitting the join of blocks gives the blocks back.
parts_from-join :
    (b : Bytes) (blocks : List Bytes)
    → All IsBlock (b ∷ blocks)
    → parts_from (join (b ∷ blocks) b',') 0 ≡ ok (b, blocks)
unfolding join parts_from
parts_from-join b [] ((some_byte, passes), tt) =
    ap (λ s. parts_from s 0) (sym (append-nil b))
    ∙ passes []
    ∙ put_all-ok b [] []
    ∙ ap (λ p. ok (p, [])) (append-nil b)
parts_from-join b (next ∷ blocks) ((some_byte, passes), hs) =
    passes (b',' ∷ join (next ∷ blocks) b',')
    ∙ ap (λ r. put_all b (new_part r)) (parts_from-join next blocks hs)
    ∙ put_all-ok b [] (next ∷ blocks)
    ∙ ap (λ p. ok (p, next ∷ blocks)) (append-nil b)

join-ne-nil : (b : Bytes) (blocks : List Bytes) → b ≢ [] → join (b ∷ blocks) b',' ≢ []
unfolding join
join-ne-nil [] blocks some_byte = absurd (some_byte refl)
join-ne-nil (c ∷ b) [] some_byte = λ e. cc
join-ne-nil (c ∷ b) (next ∷ blocks) some_byte = λ e. cc

scanned : Parts → Result HostlistError (List Bytes)
scanned r = r >>= λ p. ok (p.0 ∷ p.1)

split_top_level-scanned : (s : Bytes) → s ≢ [] → split_top_level s ≡ scanned (parts_from s 0)
unfolding split_top_level scanned
split_top_level-scanned [] some_byte = absurd (some_byte refl)
split_top_level-scanned (c ∷ s) some_byte = refl

pub split_top_level-join :
    (b : Bytes) (blocks : List Bytes)
    → All IsBlock (b ∷ blocks)
    → split_top_level (join (b ∷ blocks) b',') ≡ ok (b ∷ blocks)
unfolding scanned
split_top_level-join b blocks h =
    split_top_level-scanned (join (b ∷ blocks) b',') (join-ne-nil b blocks h.0.0)
    ∙ ap scanned (parts_from-join b blocks h)
