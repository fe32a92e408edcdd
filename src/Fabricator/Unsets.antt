-- ===== src/Fabricator/Unsets.antt =====
-- internal/fabricator/helpers.go: the variables that the emission clears first; NormalizeVendor and
-- GPU.DeviceVars of internal/config/config.go.
use slurm_shim.Common.{
  ℕ, ◌+◌, Bool, ◌&&◌, ◌||◌, List, [], ◌∷◌, map, Option, none, some, leb, if◌then◌else◌,
}
use slurm_shim.Text.Bytes.{Bytes, codes, bytes_eq}
use slurm_shim.Text.Split.{trim_space, join}
use slurm_shim.Fabricator.Env.{is_empty}
use slurm_shim.Fabricator.Types.{FabricatorConfig}

-- Upper-case letters of ASCII to lower case.
abbrev lower : ℕ → ℕ
lower c = if leb b'A' c && leb c b'Z' then c + 32 else c

-- NormalizeVendor
unfoldable pub normalize_vendor : Bytes → Bytes
unfolding lower
normalize_vendor v = map lower (trim_space v)

abbrev pub device_vars : List Bytes
device_vars =
    codes "CUDA_VISIBLE_DEVICES"
    ∷ codes "ROCR_VISIBLE_DEVICES"
    ∷ codes "HIP_VISIBLE_DEVICES"
    ∷ codes "GPU_DEVICE_ORDINAL"
    ∷ []

-- The variable that a vendor's devices are written to, `none` for an unknown vendor.
unfoldable pub vendor_var : Bytes → Option Bytes
vendor_var v =
    if is_empty v || bytes_eq v (codes "nvidia")
    then some (codes "CUDA_VISIBLE_DEVICES")
    else if bytes_eq v (codes "amd")
    then some (codes "ROCR_VISIBLE_DEVICES")
    else none

unfoldable pub dropped_vars : Bytes → Bool → List Bytes → List Bytes
dropped_vars write cgroup [] = []
dropped_vars write cgroup (name ∷ names) =
    let rest = dropped_vars write cgroup names in
    if bytes_eq name write && cgroup then rest else name ∷ rest

abbrev pub is_cgroup : FabricatorConfig → Bool
is_cgroup cfg = bytes_eq cfg.isolation (codes "cgroup")

-- DeviceVars: the variable written and those removed.
unfoldable pub device_vars_of : FabricatorConfig → Option (Bytes × List Bytes)
unfolding normalize_vendor vendor_var dropped_vars
device_vars_of cfg = elim (vendor_var (normalize_vendor cfg.vendor)) [
  | none ↦ none
  | some write ↦ some (write, dropped_vars write (is_cgroup cfg) device_vars)
]

-- batchDeviceVar: an export, or none.
unfoldable pub batch_device_var : FabricatorConfig → List Bytes → List (Bytes × Bytes)
unfolding device_vars_of
batch_device_var cfg gpus =
    if is_cgroup cfg
    then []
    else elim (device_vars_of cfg) [ none ↦ [] | some vars ↦ (vars.0, join gpus b',') ∷ [] ]

-- batchDeviceUnsets
unfoldable pub batch_device_unsets : FabricatorConfig → List Bytes → List Bytes
unfolding device_vars_of
batch_device_unsets cfg [] = []
batch_device_unsets cfg (g ∷ gpus) =
    if is_cgroup cfg then [] else elim (device_vars_of cfg) [ none ↦ [] | some vars ↦ vars.1 ]

-- unsetPreamble
abbrev pub unset_preamble : List Bytes
unset_preamble =
    codes "SLURM_SHIM_DRY_RUN"
    ∷ codes "SLURM_JOB_ID"
    ∷ codes "SLURM_JOBID"
    ∷ codes "SLURM_JOB_NAME"
    ∷ codes "SLURM_ARRAY_JOB_ID"
    ∷ codes "SLURM_ARRAY_TASK_ID"
    ∷ codes "SLURM_ARRAY_TASK_MIN"
    ∷ codes "SLURM_ARRAY_TASK_MAX"
    ∷ codes "SLURM_ARRAY_TASK_STEP"
    ∷ codes "SLURM_ARRAY_TASK_COUNT"
    ∷ codes "SLURM_ARRAY_BASE"
    ∷ codes "SLURM_ARRAY_STEP"
    ∷ codes "SLURM_JOB_NUM_NODES"
    ∷ codes "SLURM_NNODES"
    ∷ codes "SLURM_JOB_NODELIST"
    ∷ codes "SLURM_NODELIST"
    ∷ codes "SLURM_TASKS_PER_NODE"
    ∷ codes "SLURM_NTASKS"
    ∷ codes "SLURM_NPROCS"
    ∷ codes "SLURM_NTASKS_PER_NODE"
    ∷ codes "SLURM_CPUS_PER_TASK"
    ∷ codes "SLURM_JOB_CPUS_PER_NODE"
    ∷ codes "SLURM_CPUS_ON_NODE"
    ∷ codes "SLURM_JOB_PARTITION"
    ∷ codes "SLURM_JOB_ACCOUNT"
    ∷ codes "SLURM_SUBMIT_DIR"
    ∷ codes "SLURM_SUBMIT_HOST"
    ∷ codes "SLURM_CLUSTER_NAME"
    ∷ codes "SLURM_JOB_USER"
    ∷ codes "SLURM_JOB_UID"
    ∷ codes "SLURM_JOB_GID"
    ∷ codes "SLURM_RESTART_COUNT"
    ∷ codes "SLURM_DISTRIBUTION"
    ∷ codes "SLURM_LAUNCH_NODE_IPADDR"
    ∷ codes "SLURM_NODEID"
    ∷ codes "SLURM_PROCID"
    ∷ codes "SLURM_LOCALID"
    ∷ codes "SLURM_GTIDS"
    ∷ codes "SLURM_GPUS_ON_NODE"
    ∷ codes "SLURM_JOB_GPUS"
    ∷ codes "SLURM_GPUS_PER_NODE"
    ∷ codes "SLURM_MEM_PER_NODE"
    ∷ codes "MASTER_ADDR"
    ∷ codes "MASTER_PORT"
    ∷ codes "SLURM_TASK_PID"
    ∷ codes "SLURMD_NODENAME"
    ∷ codes "SLURM_STEP_ID"
    ∷ codes "SLURM_STEPID"
    ∷ codes "SLURM_STEP_NODELIST"
    ∷ codes "SLURM_STEP_NUM_NODES"
    ∷ codes "SLURM_STEP_NUM_TASKS"
    ∷ codes "SLURM_STEP_TASKS_PER_NODE"
    ∷ []
