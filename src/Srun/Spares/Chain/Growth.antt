-- ===== src/Srun/Spares/Chain/Growth.antt =====
-- What one swap of takeSpare (internal/cli/srun/elastic.go) does to the chains.
use slurm_shim.Common.{
  ℕ, zero, suc, ◌<◌, false, List, [], ◌∷◌, ◌++◌, some, String, str_eq, eq_iff, ◌≡◌, ◌∙◌, subst,
  arith, Bool-cases, inl, inr, if-true, if-false,
}
use slurm_shim.Srun.Spares.{LayoutNode, Swap, last_swap, follow, set_node}
use slurm_shim.Srun.Spares.Counts.{
  IsAt, is_host, host_count, host_count-set_node, count-IsAt, is_host-le_count, is_host-same,
  str_eq_refl,
}
use slurm_shim.Srun.Spares.Chain.{
  IsNamed, zero-or-more, first_node-listed, count-first_node, first_node-unlisted,
  unlisted-first_node, last_swap-append_same, last_swap-append_other, follow-here, follow-further,
  follow-inverse,
}

follow-zero :
    (ns : List LayoutNode) (sws : List Swap) (h : String) (n : LayoutNode)
    → follow 0 ns sws h ≡ some n
    → ⊥
unfolding follow
follow-zero ns sws h n e = cc

-- One swap: the node of the host `sw.lost` gives way to the spare, which was no node before.
module _ (ns : List LayoutNode) (sws : List Swap) (sw : Swap) (idx : ℕ) (s : LayoutNode)
    (at : IsAt ns sw.lost idx) (spare : s.host ≡ sw.spare) (unlisted : host_count sw.spare ns ≡ 0)
    (named : IsNamed sw.spare) where
  spare-listed : 0 < host_count sw.spare (set_node ns idx s)
  spare-listed =
      let (m, (here, same)) = at in
      let kept = host_count-set_node sw.spare ns idx m s here in
      let small = is_host-le_count sw.spare ns idx m here in
      let one : is_host sw.spare s ≡ 1 =
        is_host-same sw.spare sw.spare s spare
        ∙ if-true (str_eq sw.spare sw.spare) 1 0 (str_eq_refl sw.spare) in
      omega (arith, kept, small, one, unlisted)

  pub lost-ends :
      (k : ℕ)
      → (n : LayoutNode) × (follow (suc k) (set_node ns idx s) (sws ++ (sw ∷ [])) sw.lost ≡ some n)
  lost-ends k =
      let (n, found) = first_node-listed (set_node ns idx s) sw.spare spare-listed in
      (
        n,
        follow-here k (set_node ns idx s) (sws ++ (sw ∷ [])) sw.lost sw.spare n
            (last_swap-append_same sws sw "") named found,
      )

  lost-other : (h : String) → host_count h ns ≡ 0 → str_eq sw.lost h ≡ false
  lost-other h gone = elim (Bool-cases (str_eq sw.lost h)) [
    | inr other ↦ other
    | inl same ↦
        let listed =
          subst (λ g. 0 < host_count g ns) ((eq_iff sw.lost h).0 same)
            (count-IsAt ns sw.lost idx at) in
        absurd (omega (arith, listed, gone))
  ]

  -- Only the lost host stops being a node.
  gone-lost :
      (g : String) → 0 < host_count g ns → host_count g (set_node ns idx s) ≡ 0 → sw.lost ≡ g
  gone-lost g listed absent = elim (Bool-cases (str_eq sw.lost g)) [
    | inl same ↦ (eq_iff sw.lost g).0 same
    | inr other ↦
        let (m, (here, same)) = at in
        let kept = host_count-set_node g ns idx m s here in
        let zero_here : is_host g m ≡ 0 =
          is_host-same g sw.lost m ((eq_iff m.host sw.lost).0 same)
          ∙ if-false (str_eq sw.lost g) 1 0 other in
        absurd (omega (arith, kept, zero_here, listed, absent))
  ]

  -- A chain that ended at a node ends at one after the swap, in one round more.
  pub follow-swap :
      (k : ℕ) (h : String) (n : LayoutNode)
      → host_count h ns ≡ 0
      → follow k ns sws h ≡ some n
      → (m : LayoutNode) × (follow (suc k) (set_node ns idx s) (sws ++ (sw ∷ [])) h ≡ some m)
  follow-swap zero h n gone e = absurd (follow-zero ns sws h n e)
  follow-swap (suc k) h n gone e =
      let (next_named, ends) = follow-inverse k ns sws h n e in
      let next = last_swap-append_other sws sw h "" (lost-other h gone) in
      elim (zero-or-more (host_count (last_swap sws h "") (set_node ns idx s))) [
        | inr listed ↦
            let (m, found) = first_node-listed (set_node ns idx s) (last_swap sws h "") listed in
            (
              m,
              follow-here (suc k) (set_node ns idx s) (sws ++ (sw ∷ [])) h (last_swap sws h "") m
                  next next_named found,
            )
        | inl absent ↦
            let (m, further) =
              elim ends
                as (λ _.
                  (m : LayoutNode) × (follow (suc k) (set_node ns idx s) (sws ++ (sw ∷ []))
                      (last_swap sws h "")
                    ≡ some m)) [
                      | inl here ↦
                          subst
                            (λ g.
                              (m : LayoutNode) × (follow (suc k) (set_node ns idx s)
                                  (sws ++ (sw ∷ [])) g
                                ≡ some m))
                            (gone-lost (last_swap sws h "")
                              (count-first_node ns (last_swap sws h "") n here).0 absent)
                            (lost-ends k)
                      | inr (was_gone, on) ↦
                          follow-swap k (last_swap sws h "") n
                            (unlisted-first_node ns (last_swap sws h "") was_gone) on
                    ] in
            (
              m,
              follow-further (suc k) (set_node ns idx s) (sws ++ (sw ∷ [])) h (last_swap sws h "") m
                  next next_named
                  (first_node-unlisted (set_node ns idx s) (last_swap sws h "") absent) further,
            )
      ]
