-- ===== src/Srun/Spares/Reuse.antt =====
-- A host that was replaced costs no second spare (takeSpare of internal/cli/srun/elastic.go).
use slurm_shim.Common.{
  ℕ, suc, ◌+◌, ◌<◌, ◌≤◌, List, [], ◌∷◌, ◌++◌, none, some, String, str_eq, eq_iff, if◌then◌else◌,
  ◌≡◌, refl, sym, ap, ◌∙◌, subst, arith, Bool-cases, Option-cases, ◌⊎◌, inl, inr, ok, length,
  length-append, All, if-true, if-false,
}
use slurm_shim.Srun.Spares.{
  LayoutNode, JobLayout, Swap, Taken, last_index, follow, swapped, set_node, take_at, reuse,
  take_spare,
}
use slurm_shim.Srun.Spares.Counts.{
  IsAt, host_count, name_count, name_count-append, last_index-IsAt, count-IsAt, str_eq_refl,
}
use slurm_shim.Srun.Spares.Branches.{take_spare-branches}
use slurm_shim.Srun.Spares.Conserved.{holdings, Run, fresh, take, run-holdings}
use slurm_shim.Srun.Spares.Chain.{IsNamed, zero-or-more, follow-listed}
use slurm_shim.Srun.Spares.Chain.Growth.{lost-ends, follow-swap}

-- A layout as the fabricator writes it: hosts with names, each granted once, and no swap yet.
abbrev pub IsFresh : JobLayout → Type 0
IsFresh l =
    ((h : String) → holdings h l ≤ 1)
    × (l.lost ≡ [])
    × (l.swaps ≡ [])
    × All (λ (n : LayoutNode). IsNamed n.host) l.spares

-- Every lost host leads to a node, and the spares have names.
abbrev Leads : JobLayout → String → Type 0
Leads l h = (n : LayoutNode) × (follow (length l.swaps) l.nodes l.swaps h ≡ some n)

abbrev IsSound : JobLayout → Type 0
IsSound l =
    ((h : String) → 0 < name_count h l.lost → Leads l h)
    × All (λ (n : LayoutNode). IsNamed n.host) l.spares

swapped-IsSound :
    (step unix : ℕ) (lost : String) (idx : ℕ) (s : LayoutNode) (spares : List LayoutNode)
    (l : JobLayout)
    → ((h : String) → holdings h l ≤ 1)
    → IsSound l
    → IsAt l.nodes lost idx
    → l.spares ≡ s ∷ spares
    → IsSound (swapped step unix lost idx s spares l).layout
unfolding swapped holdings host_count name_count
swapped-IsSound step unix lost idx s spares l once (leads, named) at e = (
  λ h is_lost.
      subst
        (λ k.
          (n : LayoutNode) × (follow k (set_node l.nodes idx spare) (l.swaps ++ (sw ∷ [])) h
            ≡ some n))
        (sym grown) (after h (zero-or-more (name_count h l.lost)) is_lost),
  (subst (All (λ (n : LayoutNode). IsNamed n.host)) e named).1,
)
  where
    sw : Swap
    sw = record { lost = lost; spare = s.host; step = step; unix = unix }

    spare : LayoutNode
    spare = record s { index = idx }

    spare_named : IsNamed s.host
    spare_named = (subst (All (λ (n : LayoutNode). IsNamed n.host)) e named).0

    grown : length (l.swaps ++ (sw ∷ [])) ≡ suc (length l.swaps)
    grown = let long = length-append l.swaps (sw ∷ []) in omega (arith, long)

    unlisted : host_count s.host l.nodes ≡ 0
    unlisted =
        let one = once s.host in
        let here : host_count s.host l.spares ≡ 1 + host_count s.host spares =
          ap (host_count s.host) e
          ∙ ap (λ k. k + host_count s.host spares)
              (if-true (str_eq s.host s.host) 1 0 (str_eq_refl s.host)) in
        omega (arith, one, here)

    now_lost :
        (h : String) → name_count h l.lost ≡ 0 → 0 < name_count h (l.lost ++ (lost ∷ [])) → lost ≡ h
    now_lost h not_before is_lost = elim (Bool-cases (str_eq lost h)) [
      | inl same ↦ (eq_iff lost h).0 same
      | inr other ↦
          let split = name_count-append h l.lost (lost ∷ []) in
          let none_now : ◌≡◌ {A = ℕ} (if str_eq lost h then 1 else 0) 0 =
            if-false (str_eq lost h) 1 0 other in
          absurd (omega (arith, split, none_now, not_before, is_lost))
    ]

    after :
        (h : String)
        → (name_count h l.lost ≡ 0) ⊎ (0 < name_count h l.lost)
        → 0 < name_count h (l.lost ++ (lost ∷ []))
        → (n : LayoutNode) × (follow
              (suc (length l.swaps))
              (set_node l.nodes idx spare)
              (l.swaps ++ (sw ∷ []))
              h
            ≡ some n)
    after h (inr before) is_lost =
        let (n, found) = leads h before in
        let one = once h in
        follow-swap l.nodes l.swaps sw idx spare at refl unlisted spare_named (length l.swaps) h n
          (omega (arith, one, before)) found
    after h (inl not_before) is_lost =
        subst
          (λ g.
            (n : LayoutNode) × (follow (suc (length l.swaps)) (set_node l.nodes idx spare)
                (l.swaps ++ (sw ∷ [])) g
              ≡ some n))
          (now_lost h not_before is_lost)
          (lost-ends l.nodes l.swaps sw idx spare at refl unlisted spare_named (length l.swaps))

not_listed : (h : String) → 0 < name_count h [] → ⊥
unfolding name_count
not_listed h is_lost = omega (arith, is_lost)

-- A host stands in the layout at most once, at any time.
once_more : {start l : JobLayout} → IsFresh start → Run start l → (h : String) → holdings h l ≤ 1
once_more is_fresh run h =
    let kept = (run-holdings run).0 h in
    let start_once = is_fresh.0 h in omega (arith, kept, start_once)

run-IsSound : {start l : JobLayout} → IsFresh start → Run start l → IsSound l
run-IsSound {start} (once, no_lost, no_swaps, named) fresh = (
  (λ h is_lost. absurd (not_listed h (subst (λ ls. 0 < name_count h ls) no_lost is_lost))),
  named,
)
run-IsSound {start} is_fresh (take {l} step unix lost t run h) =
    let sound = run-IsSound is_fresh run in
    elim (take_spare-branches step unix lost l t h) [
      | inl (gone, named, same) ↦ subst IsSound (sym same) sound
      | inr (idx, s, spares, at, e, taken) ↦
          subst (λ (u : Taken). IsSound u.layout) (sym taken)
            (swapped-IsSound step unix lost idx s spares l (once_more is_fresh run) sound at e)
    ]

last_index-unlisted :
    (ns : List LayoutNode) (h : String) → host_count h ns ≡ 0 → last_index ns h 0 none ≡ none
last_index-unlisted ns h absent = elim (Option-cases (last_index ns h 0 none)) [
  | inl gone ↦ gone
  | inr (idx, found) ↦
      let listed = count-IsAt ns h idx (last_index-IsAt ns h idx found) in
      absurd (omega (arith, listed, absent))
]

-- From a layout of distinct named hosts without swaps, however the steps of the job interleave
-- their calls: asking for a spare for a host that some step has replaced already succeeds, names
-- one of the present nodes, and leaves the layout as it is, so that it costs no second spare.
pub take_spare-again :
    {start l : JobLayout} (step unix : ℕ) (lost : String)
    → IsFresh start
    → Run start l
    → 0 < name_count lost l.lost
    → (n : LayoutNode) × (take_spare step unix lost l
        ≡ ok (record {
          spare = n;
          used = length l.swaps;
          total = length l.swaps + length l.spares;
          layout = l;
        }))
      × (0 < host_count n.host l.nodes)
unfolding take_spare take_at reuse holdings
take_spare-again {start} {l} step unix lost is_fresh run is_lost =
    let (n, found) = (run-IsSound is_fresh run).0 lost is_lost in
    let one = once_more is_fresh run lost in
    let gone = last_index-unlisted l.nodes lost (omega (arith, one, is_lost)) in
    (
      n,
      ap (λ i. take_at step unix lost i l) gone ∙ ap (λ m. reuse lost m l) found,
      follow-listed (length l.swaps) l.nodes l.swaps lost n found,
    )
