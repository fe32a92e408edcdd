-- ===== src/Srun/Spares/Branches.antt =====
-- The two ways in which takeSpare of internal/cli/srun/elastic.go succeeds.
use slurm_shim.Common.{
  ℕ, List, [], ◌∷◌, Option, none, some, String, ◌≡◌, refl, sym, ap, ◌∙◌, Option-cases, ◌⊎◌, inl,
  inr, ok, ok-injective, err-ne-ok, length,
}
use slurm_shim.Srun.Spares.{
  LayoutNode, JobLayout, Taken, last_index, follow, swapped, reuse, take_next, take_at, take_spare,
}
use slurm_shim.Srun.Spares.Counts.{IsAt, last_index-IsAt}

-- A call that takes the next spare for the node at an index of the lost host.
abbrev pub TakesNext : ℕ → ℕ → String → JobLayout → Taken → Type 0
TakesNext step unix lost l t =
    (idx : ℕ) × (s : LayoutNode) × (spares : List LayoutNode) × IsAt l.nodes lost idx
    × (l.spares ≡ s ∷ spares)
    × (t ≡ swapped step unix lost idx s spares l)

-- A call that names the node which already replaced the lost host.
abbrev pub Reuses : String → JobLayout → Taken → Type 0
Reuses lost l t =
    (last_index l.nodes lost 0 none ≡ none)
    × (follow (length l.swaps) l.nodes l.swaps lost ≡ some t.spare)
    × (t.layout ≡ l)

take_next-TakesNext :
    (step unix : ℕ) (lost : String) (idx : ℕ) (spares : List LayoutNode) (l : JobLayout) (t : Taken)
    → IsAt l.nodes lost idx
    → l.spares ≡ spares
    → take_next step unix lost idx spares l ≡ ok t
    → TakesNext step unix lost l t
unfolding take_next
take_next-TakesNext step unix lost idx [] l t at e h = absurd (err-ne-ok h)
take_next-TakesNext step unix lost idx (s ∷ spares) l t at e h =
    (idx, s, spares, at, e, sym (ok-injective h))

reuse-Reuses :
    (lost : String) (n : Option LayoutNode) (l : JobLayout) (t : Taken)
    → reuse lost n l ≡ ok t
    → (n ≡ some t.spare) × (t.layout ≡ l)
unfolding reuse
reuse-Reuses lost none l t h = absurd (err-ne-ok h)
reuse-Reuses lost (some n) l t h =
    let same = ok-injective h in
    (ap (λ (u : Taken). some u.spare) same, sym (ap (λ (u : Taken). u.layout) same))

pub take_spare-branches :
    (step unix : ℕ) (lost : String) (l : JobLayout) (t : Taken)
    → take_spare step unix lost l ≡ ok t
    → Reuses lost l t ⊎ TakesNext step unix lost l t
unfolding take_spare take_at
take_spare-branches step unix lost l t h = elim (Option-cases (last_index l.nodes lost 0 none)) [
  | inl gone ↦
      let (named, same) =
        reuse-Reuses lost (follow (length l.swaps) l.nodes l.swaps lost) l t
          (sym (ap (λ i. take_at step unix lost i l) gone) ∙ h) in
      inl (gone, named, same)
  | inr (idx, here) ↦ inr (
      take_next-TakesNext step unix lost idx l.spares l t (last_index-IsAt l.nodes lost idx here)
        refl (sym (ap (λ i. take_at step unix lost i l) here) ∙ h))
]
