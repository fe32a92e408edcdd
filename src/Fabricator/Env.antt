-- ===== src/Fabricator/Env.antt =====
-- internal/fabricator/helpers.go: the readers of the job's environment, and the coordinates of an
-- array task. The coordinates are unbounded here: the source's 64 bits hold them for the task
-- numbers that Grid Engine gives out.
use slurm_shim.Common.{
  ℕ, zero, suc, ◌+◌, ◌-◌, ◌*◌, ◌^◌, Bool, true, false, ◌||◌, not, [], ◌∷◌, Option, none, some, ◌==◌,
  leb, if◌then◌else◌,
}
use slurm_shim.Common.Int.{ℤ, pos, negsuc, ◌+ℤ◌, ◌-ℤ◌, ◌*ℤ◌, quot}
use slurm_shim.Text.Bytes.{Bytes, codes, bytes_eq, is_digit}
use slurm_shim.Text.Split.{trim_space}
use slurm_shim.Text.Decimal.{atoi, max_int}

-- Env: a lookup, empty for a variable that is not set.
abbrev pub Env : Type 0
Env = Bytes → Bytes

abbrev pub is_empty : Bytes → Bool
is_empty [] = true
is_empty (c ∷ s) = false

-- Whether strconv.ParseInt refuses digits for their size, before it meets another byte.
too_large : ℕ → Bytes → Bool
too_large n [] = leb (2 ^ 63) n
too_large n (c ∷ s) =
    let m = n * 10 + (c - b'0') in
    let rest = too_large m s in
    if is_digit c then (if leb (2 ^ 64) m then true else rest) else false

-- What strconv.ParseInt returns beside an error: 0, or the bound that the digits pass.
at_bound : Bytes → ℤ
unfolding too_large
at_bound [] = pos 0
at_bound (c ∷ s) =
    if c == b'-'
    then (if too_large 0 s then negsuc max_int else pos 0)
    else if too_large 0 (if c == b'+' then s else c ∷ s)
    then pos max_int
    else pos 0

int_or : Option ℤ → ℤ → ℤ
int_or (some n) other = n
int_or none other = other

-- envReader.int64
unfoldable pub env_int64 : Env → Bytes → ℤ
unfolding at_bound int_or
env_int64 env key = let s = trim_space (env key) in int_or (atoi s) (at_bound s)

-- envReader.intDefault and int64OrDefault, which differ in their type alone.
unfoldable pub int_default : Env → Bytes → ℤ → ℤ
unfolding int_or
int_default env key def =
    let s = trim_space (env key) in if is_empty s then def else int_or (atoi s) def

-- arrayTaskID, `none` for a job that is no array task.
unfoldable pub array_task_id : Env → Option ℤ
array_task_id env =
    let s = trim_space (env (codes "SGE_TASK_ID")) in
    if is_empty s || bytes_eq s (codes "undefined") then none else atoi s

-- isNumeric
unfoldable pub is_numeric : Bytes → Bool
is_numeric s = elim (atoi s) [ none ↦ false | some n ↦ true ]

-- The range of an array, and slurmArray.
pub record ArrayRange : Type 0 where
  pub min : ℤ
  pub max : ℤ
  pub step : ℤ
  pub count : ℤ

pub record SlurmArray : Type 0 where
  pub task_id : ℤ
  pub range : Option ArrayRange

-- A step that is not positive counts as 1.
abbrev step_of : ℤ → ℕ
step_of (pos zero) = 1
step_of (pos (suc n)) = suc n
step_of (negsuc n) = 1

coordinates : Env → ℤ → ℤ → ℕ → SlurmArray
unfolding env_int64 int_default
coordinates env ge_task ge_first ge_step =
    let ge_last = env_int64 env (codes "SGE_TASK_LAST") in
    let base = int_default env (codes "SLURM_ARRAY_BASE") ge_first in
    let step = int_default env (codes "SLURM_ARRAY_STEP") (pos ge_step) in
    let at = quot (ge_task -ℤ ge_first) ge_step in
    let count = quot (ge_last -ℤ ge_first) ge_step +ℤ pos 1 in
    record {
      task_id = base +ℤ at *ℤ step;
      range = some (record {
        min = base;
        max = base +ℤ (count -ℤ pos 1) *ℤ step;
        step = step;
        count = count;
      });
    }

-- slurmArrayCoords
unfoldable pub slurm_array_coords : Env → ℤ → SlurmArray
unfolding is_numeric env_int64 int_default coordinates
slurm_array_coords env ge_task =
    if not (is_numeric (trim_space (env (codes "SGE_TASK_FIRST"))))
    then record { task_id = ge_task; range = none }
    else coordinates env ge_task (env_int64 env (codes "SGE_TASK_FIRST"))
        (step_of (int_default env (codes "SGE_TASK_STEPSIZE") (pos 1)))
