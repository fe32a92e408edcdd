-- ===== src/Srun/Spares/Conserved.antt =====
-- What every call of takeSpare (internal/cli/srun/elastic.go) keeps, in any order of calls by the
-- steps of a job.
use slurm_shim.Common.{
  ℕ, zero, suc, ◌+◌, List, [], ◌∷◌, String, eq_iff, ◌≡◌, refl, sym, ap, ◌∙◌, subst, arith, inl, inr,
  ok, length, length-append,
}
use slurm_shim.Srun.Spares.{LayoutNode, JobLayout, Taken, swapped, set_node, take_spare}
use slurm_shim.Srun.Spares.Counts.{
  IsAt, host_count, name_count, host_count-set_node, is_host-same, name_count-append,
}
use slurm_shim.Srun.Spares.Branches.{take_spare-branches}

-- How often a host stands in the job's layout: as a node, as a spare, or as a lost host.
unfoldable pub holdings : String → JobLayout → ℕ
unfolding host_count name_count
holdings h l = host_count h l.nodes + host_count h l.spares + name_count h l.lost

-- Calls of takeSpare that succeed, each with its step, its time and its lost host, by whichever
-- step of the job has the layout's lock.
pub data Run (start : JobLayout) : JobLayout → Type 0 where
  fresh : Run start start
  take :
      {l : JobLayout} (step unix : ℕ) (lost : String) (t : Taken)
      → Run start l
      → take_spare step unix lost l ≡ ok t
      → Run start t.layout

-- One node of the lost host gives way to the spare, and the lost host is recorded.
abbrev KeepsHoldings : JobLayout → JobLayout → Type 0
KeepsHoldings l m =
    ((h : String) → holdings h m ≡ holdings h l)
    × (length m.nodes ≡ length l.nodes)
    × (length m.swaps + length m.spares ≡ length l.swaps + length l.spares)

length-set_node :
    (ns : List LayoutNode) (i : ℕ) (s : LayoutNode) → length (set_node ns i s) ≡ length ns
unfolding set_node
length-set_node [] i s = refl
length-set_node (n ∷ ns) zero s = refl
length-set_node (n ∷ ns) (suc i) s = ap suc (length-set_node ns i s)

swapped-KeepsHoldings :
    (step unix : ℕ) (lost : String) (idx : ℕ) (s : LayoutNode) (spares : List LayoutNode)
    (l : JobLayout)
    → IsAt l.nodes lost idx
    → l.spares ≡ s ∷ spares
    → KeepsHoldings l (swapped step unix lost idx s spares l).layout
unfolding swapped holdings host_count name_count
swapped-KeepsHoldings step unix lost idx s spares l (m, (at, same)) e = (
  λ h.
      let there = host_count-set_node h l.nodes idx m (record s { index = idx }) at in
      let recorded = name_count-append h l.lost (lost ∷ []) in
      let one = is_host-same h lost m ((eq_iff m.host lost).0 same) in
      rw e (omega (arith, there, recorded, one)),
  length-set_node l.nodes idx (record s { index = idx }),
  let grown =
        length-append l.swaps
          (record { lost = lost; spare = s.host; step = step; unix = unix } ∷ []) in
      rw e (omega (arith, grown)),
)

take_spare-KeepsHoldings :
    (step unix : ℕ) (lost : String) (l : JobLayout) (t : Taken)
    → take_spare step unix lost l ≡ ok t
    → KeepsHoldings l t.layout
take_spare-KeepsHoldings step unix lost l t h = elim (take_spare-branches step unix lost l t h) [
  | inl (gone, named, same) ↦ subst (KeepsHoldings l) (sym same) ((λ h. refl), refl, refl)
  | inr (idx, s, spares, at, e, taken) ↦
      subst (λ (u : Taken). KeepsHoldings l u.layout) (sym taken)
        (swapped-KeepsHoldings step unix lost idx s spares l at e)
]

-- However the steps of a job interleave their calls, every host stands in the layout as often as it
-- did at the start, as a node, a spare or a lost host; the job keeps its number of nodes; and every
-- spare that is gone is recorded as a swap.
pub run-holdings :
    {start l : JobLayout}
    → Run start l
    → ((h : String) → holdings h l ≡ holdings h start)
      × (length l.nodes ≡ length start.nodes)
      × (length l.swaps + length l.spares ≡ length start.swaps + length start.spares)
run-holdings fresh = ((λ h. refl), refl, refl)
run-holdings {start} (take {l} step unix lost t run h) =
    let (kept, nodes, spares) = run-holdings run in
    let (kept2, nodes2, spares2) = take_spare-KeepsHoldings step unix lost l t h in
    ((λ h. kept2 h ∙ kept h), nodes2 ∙ nodes, spares2 ∙ spares)
