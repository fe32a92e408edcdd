-- ===== src/Install/Apply/Report.antt =====
-- What Apply of internal/install/apply.go reports, and what it leaves alone.
use slurm_shim.Common.{
  ℕ, suc, ◌+◌, Bool, true, false, List, [], ◌∷◌, ◌≡◌, refl, ap, ◌∙◌, arith, map, if◌then◌else◌,
  Bool-cases, inl, inr,
}
use slurm_shim.Install.Types.{ChangeKind, Change, other}
use slurm_shim.Install.Apply.{
  ClusterAdmin, Outcome, mutating, plan_mutating, apply_kind, apply, succeeded, applied, failed,
}

-- How many changes of a list would change the cluster.
abbrev pub mutations : List Change → ℕ
mutations [] = 0
mutations (c ∷ cs) = if mutating c.kind then suc (mutations cs) else mutations cs

-- How many outcomes with an error are those of changes that would change the cluster.
abbrev pub failed_mutations : List Outcome → ℕ
failed_mutations [] = 0
failed_mutations (o ∷ os) =
    if mutating o.change.kind then suc (failed_mutations os) else failed_mutations os

same_applied : (b : Bool) (n : ℕ) → (if b then n else n) ≡ n
same_applied true n = refl
same_applied false n = refl

module _ {Cluster : Type 0} (a : ClusterAdmin Cluster) where
  -- The report has one outcome for each change of the plan, in the plan's order, whatever fails.
  -- Every change that would change the cluster is counted once: as applied, or among the failed.
  pub apply_complete :
      (cs : List Change) (s : Cluster)
      → (map (λ (o : Outcome). o.change) (apply a cs s).0 ≡ cs)
        × (applied (apply a cs s).0 + failed_mutations (failed (apply a cs s).0) ≡ mutations cs)
  unfolding apply applied failed
  apply_complete [] s = (refl, refl)
  apply_complete (c ∷ cs) s =
      let (listed, counted) = apply_complete cs (apply_kind a c.kind c s).1 in
      (
        ap (λ (r : List Change). c ∷ r) listed,
        elim (Bool-cases (mutating c.kind)) [
          | inl e ↦ elim (Bool-cases (succeeded (apply_kind a c.kind c s).0)) [
            | inl e' ↦ rw (e, e') (omega (arith, counted))
            | inr e' ↦ rw (e', e) (omega (arith, counted))
          ]
          | inr e ↦ elim (Bool-cases (succeeded (apply_kind a c.kind c s).0)) [
            | inl e' ↦ rw (e, e') counted
            | inr e' ↦ rw (e', e) counted
          ]
        ],
      )

  apply_kind_idle :
      (c : Change) (k : ChangeKind) (s : Cluster) → mutating k ≡ false → (apply_kind a k c s).1 ≡ s
  unfolding apply_kind mutating
  apply_kind_idle c ChangeKind.refused s h = refl
  apply_kind_idle c ChangeKind.unchanged s h = refl
  apply_kind_idle c (other k) s h = refl
  apply_kind_idle c _ s h = cc

  -- Applying a plan that is not Mutating changes nothing in the cluster, and applies no change.
  pub apply_idle :
      (cs : List Change) (s : Cluster)
      → plan_mutating cs ≡ false
      → ((apply a cs s).1 ≡ s) × (applied (apply a cs s).0 ≡ 0)
  unfolding apply applied plan_mutating
  apply_idle [] s h = (refl, refl)
  apply_idle (c ∷ cs) s h = elim (Bool-cases (mutating c.kind)) [
    | inl e ↦ cc (rw e at h)
    | inr e ↦
        let kept = apply_kind_idle c c.kind s e in
        let (rest, none_applied) = apply_idle cs s (rw e at h) in
        let none_more =
          same_applied (succeeded (apply_kind a c.kind c s).0) (applied (apply a cs s).0) in
        rw (kept, e) (rest, none_more ∙ none_applied)
  ]
