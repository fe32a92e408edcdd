-- ===== src/Gedata/Tests.antt =====
-- Runs of the array tasks, and the theorems applied to a range of four tasks.
use slurm_shim.Common.{List, [], ◌∷◌, some, ◌≡◌, refl, arith, leb, ◌&&◌, ◌==◌, ◌-◌, ◌%◌}
use slurm_shim.Common.Int.{pos}
use slurm_shim.Text.Bytes.{Bytes, codes}
use slurm_shim.Text.Decimal.{itoa}
use slurm_shim.Gedata.Tasks.{
  ge_task, slurm_task, expand_tasks, task_list_contains, slurm_task_list, first_task,
}
use slurm_shim.Gedata.Tasks.Range.{range_text, names, expand_tasks_members}
use slurm_shim.Gedata.Tasks.Index.{slurm_task-ge_task}

slurm_task-ge_task_example :
    (ge_task (itoa (pos 2)) ≡ some (itoa (pos 3))) × (slurm_task (itoa (pos 3)) ≡ itoa (pos 2))
slurm_task-ge_task_example = slurm_task-ge_task 2 (omega arith)

every_other : slurm_task (codes "1-9:2") ≡ codes "[0-8:2]"
unfolding slurm_task slurm_shim.Text.Bytes.index_byte
every_other = refl

listed_tasks :
    expand_tasks (codes "1-5:2,7,x")
    ≡ some (codes "1" ∷ codes "3" ∷ codes "5" ∷ codes "7" ∷ codes "x" ∷ [])
unfolding expand_tasks slurm_shim.Text.Bytes.index_byte
listed_tasks = refl

expand_tasks_members_example :
    (ts : List Bytes) × (expand_tasks (range_text 1 9 2) ≡ some ts)
    × (names ts (itoa (pos 5)) ≡ (leb 1 5 && leb 5 9 && ((5 - 1) % 2 == 0)))
    × (task_list_contains (range_text 1 9 2) (itoa (pos 5)) ≡ names ts (itoa (pos 5)))
expand_tasks_members_example =
    expand_tasks_members 1 9 1 5 (omega arith) (omega arith) (omega arith)

-- The index of the largest int is one too many: the task number wraps around.
largest_index : ge_task (codes "9223372036854775807") ≡ some (codes "-9223372036854775808")
unfolding ge_task
largest_index = refl

shown_list : slurm_task_list (codes "1-3:1,7") ≡ codes "[0-2,6]"
unfolding slurm_task_list slurm_shim.Text.Bytes.index_byte
shown_list = refl

first_named : first_task (codes "4-9:1,12") ≡ pos 4
unfolding first_task slurm_shim.Text.Bytes.index_byte
first_named = refl
