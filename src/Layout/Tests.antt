-- ===== src/Layout/Tests.antt =====
-- Runs of the step counter, and its theorems applied to a fresh and to a damaged file.
use slurm_shim.Common.{none, some, ◌≡◌, refl, arith, ok, err}
use slurm_shim.Common.Int.{pos}
use slurm_shim.Text.Bytes.{codes}
use slurm_shim.Layout.StepCounter.{
  StepError, corrupt, init_step_counter, add_one, next_step, peek_step,
}
use slurm_shim.Layout.StepCounter.Sequence.{
  holding, issue, ids_from, last_before, next_step_issues, issue-init, peek_agrees,
}

next_step_issues_example :
    next_step (holding (pos 41)) ≡ (ok (add_one (pos 41)), holding (add_one (pos 41)))
next_step_issues_example = next_step_issues (pos 41) (omega arith)

issue-init_example : issue 3 (init_step_counter none) ≡ (ids_from 0 3, holding (last_before 3))
issue-init_example = issue-init 3 none (omega arith)

peek_agrees_example : peek_step (some (codes " 7 ")) ≡ (next_step (some (codes " 7 "))).0
unfolding slurm_shim.Layout.StepCounter.opened
peek_agrees_example = peek_agrees (some (codes " 7 ")) (omega arith)

damaged : (next_step (some (codes "seven"))).0 ≡ err (corrupt (codes "seven"))
unfolding next_step
damaged = refl
