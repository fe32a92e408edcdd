-- ===== src/Encoders/Nodelist/RoundTrip.antt =====
-- ExpandNodelist (internal/encoders/expand.go) reads back what CompressNodelist
-- (internal/encoders/nodelist.go) writes.
use slurm_shim.Common.{
  true, List, [], ◌∷◌, ◌++◌, Option, none, some, ◌≡◌, ◌≢◌, refl, sym, ap, ◌∙◌, subst, All, map, ok,
  ◌>>=◌, append_assoc, Bool-cases, inl, inr, and-true, All-++,
}
use slurm_shim.Text.Bytes.{Bytes, bytes_eq, bytes_eq→eq}
use slurm_shim.Text.Split.{join}
use slurm_shim.Encoders.Nodelist.{
  NameParts, split_name, Token, token_of, Group, block, same_parts, new_group, gather, blocks_from,
  compress_nodelist,
}
use slurm_shim.Encoders.Nodelist.Expand.{expand_blocks, expand_nodelist}
use slurm_shim.Encoders.Nodelist.Items.{IsToken, name_of}
use slurm_shim.Encoders.Nodelist.Blocks.{IsGroup, names, expand_block-plain, expand_block-group}
use slurm_shim.Encoders.Nodelist.Names.{IsHost, split_name-IsToken}
use slurm_shim.Encoders.Nodelist.TopLevel.{
  IsBlock, plain-IsBlock, group-IsBlock, split_top_level-join,
}

-- The names of the group that is gathered so far.
gathered : Option Group → List Bytes
gathered none = []
gathered (some g) = names g

IsGathered : Option Group → Type 0
IsGathered none = Unit
IsGathered (some g) = IsGroup g

-- Blocks that expand to the names, and that a scan for commas keeps apart.
abbrev Expands : List Bytes → List Bytes → Type 0
Expands blocks hosts = (expand_blocks blocks ≡ ok hosts) × All IsBlock blocks

group-Expands :
    (g : Group) (blocks hosts : List Bytes)
    → IsGroup g
    → Expands blocks hosts
    → Expands (block g ∷ blocks) (names g ++ hosts)
unfolding expand_blocks
group-Expands g blocks hosts is_group (reads, apart) = (
  ap (λ r. r >>= λ expanded. expand_blocks blocks >>= λ rest. ok (expanded ++ rest))
        (expand_block-group g is_group)
      ∙ ap (λ r. r >>= λ rest. ok (names g ++ rest)) reads,
  (group-IsBlock g is_group, apart),
)

plain-Expands :
    (h : Bytes) (blocks hosts : List Bytes)
    → IsHost h
    → Expands blocks hosts
    → Expands (h ∷ blocks) (h ∷ hosts)
unfolding expand_blocks
plain-Expands h blocks hosts (some_byte, plain, small) (reads, apart) = (
  ap (λ r. r >>= λ expanded. expand_blocks blocks >>= λ rest. ok (expanded ++ rest))
        (expand_block-plain h some_byte plain)
      ∙ ap (λ r. r >>= λ rest. ok (h ∷ rest)) reads,
  (plain-IsBlock h some_byte plain, apart),
)

new_group-IsGroup :
    (h : Bytes) (parts : NameParts)
    → IsHost h
    → split_name h ≡ some parts
    → IsGroup (new_group parts) × (names (new_group parts) ≡ h ∷ [])
unfolding new_group
new_group-IsGroup h parts is_host e =
    let (token, prefix, suffix, same) = split_name-IsToken h parts is_host e in
    ((prefix, suffix, token, tt), ap (λ n. n ∷ []) same)

-- One name more in a group of the same parts.
grown : Group → Token → Group
grown g t = record g { others = g.others ++ (t ∷ []) }

map-append : (f : Token → Bytes) (xs ys : List Token) → map f (xs ++ ys) ≡ map f xs ++ map f ys
map-append f [] ys = refl
map-append f (x ∷ xs) ys = ap (λ r. f x ∷ r) (map-append f xs ys)

grown-IsGroup :
    (h : Bytes) (parts : NameParts) (g : Group)
    → IsHost h
    → split_name h ≡ some parts
    → same_parts parts g ≡ true
    → IsGroup g
    → IsGroup (grown g (token_of parts.digits))
      × (names (grown g (token_of parts.digits)) ≡ names g ++ (h ∷ []))
unfolding grown
grown-IsGroup h parts g is_host e same (hp, hs, ht, hts) =
    let (token, prefix, suffix, name) = split_name-IsToken h parts is_host e in
    let (p, s) = and-true (bytes_eq parts.prefix g.prefix) (bytes_eq parts.suffix g.suffix) same in
    let prefixes = bytes_eq→eq parts.prefix g.prefix p in
    let suffixes = bytes_eq→eq parts.suffix g.suffix s in
    (
      (hp, hs, ht, All-++ IsToken g.others (token_of parts.digits ∷ []) hts (token, tt)),
      ap (λ r. name_of g.prefix g.suffix g.first ∷ r)
          (map-append (name_of g.prefix g.suffix) g.others (token_of parts.digits ∷ [])
            ∙ ap (λ n. map (name_of g.prefix g.suffix) g.others ++ (n ∷ []))
                (ap (λ q. name_of q g.suffix (token_of parts.digits)) (sym prefixes)
                  ∙ ap (λ q. name_of parts.prefix q (token_of parts.digits)) (sym suffixes)
                  ∙ name)),
    )

gather-Expands :
    (x : Bytes) (hosts : List Bytes) (o : Option NameParts) (g : Option Group)
    (next : Option Group → List Bytes)
    → IsHost x
    → split_name x ≡ o
    → IsGathered g
    → ((k : Option Group) → IsGathered k → Expands (next k) (gathered k ++ hosts))
    → Expands (gather x o g next) (gathered g ++ (x ∷ hosts))
unfolding gathered IsGathered grown gather
gather-Expands x hosts none none next hx e is_group on =
    plain-Expands x (next none) hosts hx (on none tt)
gather-Expands x hosts none (some g) next hx e is_group on =
    group-Expands g (x ∷ next none) (x ∷ hosts) is_group
      (plain-Expands x (next none) hosts hx (on none tt))
gather-Expands x hosts (some parts) none next hx e is_group on =
    let (new, name) = new_group-IsGroup x parts hx e in
    subst (λ r. Expands (next (some (new_group parts))) (r ++ hosts)) name
      (on (some (new_group parts)) new)
gather-Expands x hosts (some parts) (some g) next hx e is_group on =
    elim (Bool-cases (same_parts parts g)) [
      | inl same ↦
          let (more, name) = grown-IsGroup x parts g hx e same is_group in
          rw same (
            subst (Expands (next (some (grown g (token_of parts.digits)))))
              (ap (λ r. r ++ hosts) name ∙ append_assoc (names g) (x ∷ []) hosts)
              (on (some (grown g (token_of parts.digits))) more))
      | inr other ↦
          let (new, name) = new_group-IsGroup x parts hx e in
          rw other (
            group-Expands g (next (some (new_group parts))) (x ∷ hosts) is_group (
              subst (λ r. Expands (next (some (new_group parts))) (r ++ hosts)) name
                (on (some (new_group parts)) new)))
    ]

blocks_from-Expands :
    (hosts : List Bytes) (g : Option Group)
    → All IsHost hosts
    → IsGathered g
    → Expands (blocks_from hosts g) (gathered g ++ hosts)
unfolding blocks_from gathered IsGathered expand_blocks
blocks_from-Expands [] none h is_group = (refl, tt)
blocks_from-Expands [] (some g) h is_group = group-Expands g [] [] is_group (refl, tt)
blocks_from-Expands (x ∷ hosts) g (hx, hs) is_group =
    gather-Expands x hosts (split_name x) g (blocks_from hosts) hx refl is_group
      (λ k h. blocks_from-Expands hosts k hs h)

blocks-some :
    (blocks : List Bytes) (host : Bytes) (hosts : List Bytes)
    → Expands blocks (host ∷ hosts)
    → expand_nodelist (join blocks b',') ≡ ok (host ∷ hosts)
unfolding expand_nodelist expand_blocks
blocks-some [] host hosts (reads, apart) = cc
blocks-some (b ∷ blocks) host hosts (reads, apart) =
    ap (λ r. r >>= λ bs. expand_blocks bs) (split_top_level-join b blocks apart) ∙ reads

-- Compressing a list of host names and expanding the text gives the same list in the same order,
-- with its zero padding and its repetitions. The list is not empty, the names have no comma and no
-- bracket, and the last run of digits of a name stands for a number below 2 ^ 63 - 1.
pub expand_nodelist-compress_nodelist :
    (hosts : List Bytes)
    → hosts ≢ []
    → All IsHost hosts
    → expand_nodelist (compress_nodelist hosts) ≡ ok hosts
unfolding compress_nodelist gathered IsGathered
expand_nodelist-compress_nodelist [] some_host h = absurd (some_host refl)
expand_nodelist-compress_nodelist (host ∷ hosts) some_host h =
    blocks-some (blocks_from (host ∷ hosts) none) host hosts
      (blocks_from-Expands (host ∷ hosts) none h tt)
