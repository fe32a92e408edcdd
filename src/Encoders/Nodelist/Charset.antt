-- ===== src/Encoders/Nodelist/Charset.antt =====
-- Which bytes the text of CompressNodelist (internal/encoders/nodelist.go) is made of.
use slurm_shim.Common.{
  ℕ, zero, suc, List, [], ◌∷◌, ◌++◌, Option, none, some, ◌≡◌, refl, subst, All, Bool-cases, inl,
  inr, All-++,
}
use slurm_shim.Text.Bytes.{Bytes, All-append}
use slurm_shim.Text.Split.{join}
use slurm_shim.Encoders.Nodelist.{
  NameParts, split_name, Token, token_of, item, goes_on, items_from, range_items, Group, block,
  same_parts, new_group, gather, blocks_from, compress_nodelist,
}
use slurm_shim.Encoders.Nodelist.Names.{split_name-IsParts, All-front, All-back}

-- A class of bytes that holds those of the notation.
module _ (P : ℕ → Type 0) (comma : P b',') (dash : P b'-') (opening : P b'[')
    (closing : P b']') where
  OfGroup : Group → Type 0
  OfGroup g =
      All P g.prefix
      × All P g.suffix
      × All P g.first.digits
      × All (λ (t : Token). All P t.digits) g.others

  item-All :
      (start last : Token) (run : ℕ)
      → All P start.digits
      → All P last.digits
      → All P (item start last run)
  item-All start last zero hs hl = hs
  item-All start last (suc run) hs hl = All-append P start.digits (b'-' ∷ last.digits) hs (dash, hl)

  items_from-All :
      (toks : List Token) (start last : Token) (run : ℕ)
      → All P start.digits
      → All P last.digits
      → All (λ (t : Token). All P t.digits) toks
      → All (All P) (items_from start last run toks)
  unfolding items_from
  items_from-All [] start last run hs hl h = (item-All start last run hs hl, tt)
  items_from-All (t ∷ toks) start last run hs hl (ht, h) = elim (Bool-cases (goes_on last t)) [
    | inl on ↦ rw on (items_from-All toks start t (suc run) hs ht h)
    | inr off ↦ rw off (item-All start last run hs hl, items_from-All toks t t 0 ht ht h)
  ]

  join-All : (parts : List Bytes) → All (All P) parts → All P (join parts b',')
  unfolding join
  join-All [] h = tt
  join-All (p ∷ []) (hp, h) = hp
  join-All (p ∷ q ∷ parts) (hp, h) =
      All-append P p (b',' ∷ join (q ∷ parts) b',') hp (comma, join-All (q ∷ parts) h)

  block-All : (g : Group) → OfGroup g → All P (block g)
  unfolding block range_items OfGroup
  block-All g (hp, hs, ht, h) = grouped g.others refl h
    where
      grouped :
          (others : List Token)
          → g.others ≡ others
          → All (λ (t : Token). All P t.digits) others
          → All P (block g)
      grouped [] e hs2 = rw e (
          All-append P g.prefix (g.first.digits ++ g.suffix) hp
            (All-append P g.first.digits g.suffix ht hs))
      grouped (t ∷ toks) e hs2 = rw e (
          All-append P g.prefix
            (b'[' ∷ (join (range_items (g.first ∷ t ∷ toks)) b',' ++ (b']' ∷ g.suffix))) hp
            (
              opening,
              All-append P (join (range_items (g.first ∷ t ∷ toks)) b',') (b']' ∷ g.suffix)
                  (join-All (range_items (g.first ∷ t ∷ toks))
                    (items_from-All (t ∷ toks) g.first g.first 0 ht ht hs2))
                  (closing, hs),
            ))

  OfGathered : Option Group → Type 0
  OfGathered none = Unit
  OfGathered (some g) = OfGroup g

  parts-All :
      (h : Bytes) (parts : NameParts)
      → All P h
      → split_name h ≡ some parts
      → All P parts.prefix × All P parts.suffix × All P parts.digits
  parts-All h parts hh e =
      let whole = subst (All P) (split_name-IsParts h parts e).0 hh in
      let back = All-back P parts.prefix (parts.digits ++ parts.suffix) whole in
      (
        All-front P parts.prefix (parts.digits ++ parts.suffix) whole,
        All-back P parts.digits parts.suffix back,
        All-front P parts.digits parts.suffix back,
      )

  gather-All :
      (x : Bytes) (o : Option NameParts) (g : Option Group) (next : Option Group → List Bytes)
      → All P x
      → split_name x ≡ o
      → OfGathered g
      → ((k : Option Group) → OfGathered k → All (All P) (next k))
      → All (All P) (gather x o g next)
  unfolding gather new_group OfGathered OfGroup
  gather-All x none none next hx e hg on = (hx, on none tt)
  gather-All x none (some g) next hx e hg on = (block-All g hg, (hx, on none tt))
  gather-All x (some parts) none next hx e hg on =
      let (p, s, d) = parts-All x parts hx e in on (some (new_group parts)) (p, s, d, tt)
  gather-All x (some parts) (some g) next hx e hg on =
      let (p, s, d) = parts-All x parts hx e in
      elim (Bool-cases (same_parts parts g)) [
        | inl same ↦ rw same (
            on (some (record g { others = g.others ++ (token_of parts.digits ∷ []) })) (
              hg.0,
              hg.1,
              hg.2,
              All-++ (λ (t : Token). All P t.digits) g.others (token_of parts.digits ∷ []) hg.3
                  (d, tt),
            ))
        | inr other ↦ rw other (block-All g hg, on (some (new_group parts)) (p, s, d, tt))
      ]

  blocks_from-All :
      (hosts : List Bytes) (g : Option Group)
      → All (All P) hosts
      → OfGathered g
      → All (All P) (blocks_from hosts g)
  unfolding blocks_from OfGathered
  blocks_from-All [] none h hg = tt
  blocks_from-All [] (some g) h hg = (block-All g hg, tt)
  blocks_from-All (x ∷ hosts) g (hx, h) hg =
      gather-All x (split_name x) g (blocks_from hosts) hx refl hg
        (λ k hk. blocks_from-All hosts k h hk)

  -- A nodelist has no byte beside those of its names and of its notation.
  pub compress_nodelist-All :
      (hosts : List Bytes) → All (All P) hosts → All P (compress_nodelist hosts)
  unfolding compress_nodelist OfGathered
  compress_nodelist-All hosts h =
      join-All (blocks_from hosts none) (blocks_from-All hosts none h tt)
