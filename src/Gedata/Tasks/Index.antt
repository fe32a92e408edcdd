-- ===== src/Gedata/Tasks/Index.antt =====
-- Array indices as SLURM and as Grid Engine count them (internal/gedata/arraytask.go).
use slurm_shim.Common.{ℕ, suc, ◌≤◌, ◌<◌, [], ◌∷◌, some, ◌≡◌, ◌≢◌, refl, ap, ◌∙◌, arith}
use slurm_shim.Common.Int.{ℤ, pos}
use slurm_shim.Text.Bytes.{Bytes}
use slurm_shim.Text.Decimal.{itoa, itoa_ℕ-ne-nil, atoi, atoi-itoa, max_int}
use slurm_shim.Layout.StepCounter.{add_one}
use slurm_shim.Gedata.Tasks.{ge_task_of, ge_task, slurm_task_of, slurm_task}

slurm_task-ne-nil : (s : Bytes) → s ≢ [] → slurm_task s ≡ slurm_task_of s (atoi s)
unfolding slurm_task
slurm_task-ne-nil [] h = absurd (h refl)
slurm_task-ne-nil (c ∷ s) h = refl

slurm_task-itoa : (n : ℕ) → suc n ≤ max_int → slurm_task (itoa (pos (suc n))) ≡ itoa (pos n)
slurm_task-itoa n h =
    slurm_task-ne-nil (itoa (pos (suc n))) (unfold itoa in itoa_ℕ-ne-nil (suc n))
    ∙ ap (slurm_task_of (itoa (pos (suc n)))) (atoi-itoa (pos (suc n)) h)
    ∙ unfold slurm_task_of in refl

add_one-fits : (k : ℕ) → k < max_int → add_one (pos k) ≡ pos (suc k)
unfolding add_one
add_one-fits k h = ground arith

-- A SLURM array index below the largest int has a Grid Engine task, which is the number behind it,
-- and SLURM shows that task under the index that it came from.
pub slurm_task-ge_task :
    (k : ℕ)
    → k < max_int
    → (ge_task (itoa (pos k)) ≡ some (itoa (pos (suc k))))
      × (slurm_task (itoa (pos (suc k))) ≡ itoa (pos k))
slurm_task-ge_task k h = (
  unfold ge_task in
      ap ge_task_of (atoi-itoa (pos k) (omega arith))
      ∙ unfold ge_task_of in ap (λ (z : ℤ). some (itoa z)) (add_one-fits k h),
  slurm_task-itoa k (omega arith),
)
