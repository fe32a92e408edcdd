-- ===== src/Fabricator/TableA.antt =====
-- internal/fabricator/helpers.go: the job's exports (Table A).
pub mod Scrub
use slurm_shim.Common.{
  ℕ, suc, ◌+◌, Bool, true, false, ◌&&◌, ◌||◌, not, List, [], ◌∷◌, ◌++◌, map, Option, none, some,
  ◌==◌, ltb, leb, if◌then◌else◌, length,
}
use slurm_shim.Common.Int.{ℤ, pos}
use slurm_shim.Text.Bytes.{Bytes, codes, bytes_eq}
use slurm_shim.Text.Split.{trim_space, join}
use slurm_shim.Text.Decimal.{itoa, itoa_ℕ}
use slurm_shim.Encoders.Rle.{compress_counts}
use slurm_shim.Encoders.Nodelist.{compress_nodelist}
use slurm_shim.Plan.Policy.{TaskGeometry}
use slurm_shim.Fabricator.Env.{
  Env, is_empty, env_int64, is_numeric, ArrayRange, SlurmArray, slurm_array_coords,
}
use slurm_shim.Fabricator.Types.{
  FabricatedNode, FabricatedJob, RankEntry, FabricatedLayout, FabricatorConfig, Who,
}
use slurm_shim.Fabricator.Unsets.{batch_device_var}

unfoldable pub uniform : List ℕ → Bool
uniform [] = false
uniform (n ∷ ns) = all_equal n ns
  where
    all_equal : ℕ → List ℕ → Bool
    all_equal n [] = true
    all_equal n (m ∷ ms) = m == n && all_equal n ms

unfoldable pub first_count : List ℕ → ℕ
first_count [] = 0
first_count (n ∷ ns) = n

-- uniformGPUCount
unfoldable pub uniform_gpu_count : FabricatedLayout → Option ℕ
uniform_gpu_count lay = same_count (length lay.master.gpus) lay.others
  where
    same_count : ℕ → List FabricatedNode → Option ℕ
    same_count first [] = some first
    same_count first (n ∷ ns) =
        let rest = same_count first ns in if length n.gpus == first then rest else none

abbrev positions : ℕ → List Bytes → List Bytes
positions j [] = []
positions j (d ∷ ds) = itoa_ℕ j ∷ positions (suc j) ds

abbrev every_numeric : List Bytes → Bool
unfolding is_numeric
every_numeric [] = true
every_numeric (d ∷ ds) = is_numeric d && every_numeric ds

-- jobGPUsValue
unfoldable pub job_gpus_value : List Bytes → Bytes
unfolding every_numeric
job_gpus_value devices =
    if every_numeric devices then join devices b',' else join (positions 0 devices) b','

abbrev pub Exports : Type 0
Exports = List (Bytes × Bytes)

-- An export of a value that is set.
abbrev pub if_set : Bytes → Bytes → Exports
if_set k [] = []
if_set k (c ∷ v) = (k, c ∷ v) ∷ []

unfoldable pub array_range_exports : Option ArrayRange → Exports
array_range_exports none = []
array_range_exports (some r) =
    (codes "SLURM_ARRAY_TASK_MIN", itoa r.min)
    ∷ (codes "SLURM_ARRAY_TASK_MAX", itoa r.max)
    ∷ (codes "SLURM_ARRAY_TASK_STEP", itoa r.step)
    ∷ (codes "SLURM_ARRAY_TASK_COUNT", itoa r.count)
    ∷ []

unfoldable pub array_exports : Env → Bytes → Option ℤ → Exports
unfolding array_range_exports
array_exports env job_id none = []
array_exports env job_id (some task_id) =
    let arr = slurm_array_coords env task_id in
    (codes "SLURM_ARRAY_JOB_ID", job_id)
    ∷ (codes "SLURM_ARRAY_TASK_ID", itoa arr.task_id)
    ∷ array_range_exports arr.range

unfoldable pub gpus_per_node_export : Option ℕ → Exports
gpus_per_node_export none = []
gpus_per_node_export (some per) = (codes "SLURM_GPUS_PER_NODE", itoa_ℕ per) ∷ []

unfoldable pub gpu_exports : FabricatorConfig → FabricatedLayout → List Bytes → Exports
unfolding gpus_per_node_export
gpu_exports cfg lay [] = []
gpu_exports cfg lay (g ∷ gpus) =
    (codes "SLURM_GPUS_ON_NODE", itoa_ℕ (length (g ∷ gpus)))
    ∷ (codes "SLURM_JOB_GPUS", job_gpus_value (g ∷ gpus))
    ∷ (gpus_per_node_export (uniform_gpu_count lay) ++ batch_device_var cfg (g ∷ gpus))

abbrev pub node_names : FabricatedLayout → List Bytes
node_names lay = map (λ (n : FabricatedNode). n.host) (lay.master ∷ lay.others)

abbrev pub raw_slots : FabricatedLayout → List ℤ
raw_slots lay = map (λ (n : FabricatedNode). pos n.slots) (lay.master ∷ lay.others)

unfoldable pub cpus_per_task_export : FabricatorConfig → TaskGeometry → Exports
cpus_per_task_export cfg geom =
    if geom.cpus_per_task_set
    then (codes "SLURM_CPUS_PER_TASK", itoa_ℕ geom.cpus_per_task) ∷ []
    else if cfg.emit_cpus_per_task
    then (codes "SLURM_CPUS_PER_TASK", codes "1") ∷ []
    else []

-- The exports of the nodes and of the task geometry.
unfoldable pub geometry_exports : FabricatorConfig → FabricatedLayout → TaskGeometry → Exports
unfolding cpus_per_task_export
geometry_exports cfg lay geom =
    let nnodes = itoa_ℕ (length (lay.master ∷ lay.others)) in
    let nodelist = compress_nodelist (node_names lay) in
    (codes "SLURM_JOB_NUM_NODES", nnodes)
    ∷ (codes "SLURM_NNODES", nnodes)
    ∷ (codes "SLURM_JOB_NODELIST", nodelist)
    ∷ (codes "SLURM_NODELIST", nodelist)
    ∷ (codes "SLURM_TASKS_PER_NODE", compress_counts (map pos geom.per_node))
    ∷ (codes "SLURM_NTASKS", itoa_ℕ geom.ntasks)
    ∷ (codes "SLURM_NPROCS", itoa_ℕ geom.ntasks)
    ∷ ((if uniform geom.per_node
          then (codes "SLURM_NTASKS_PER_NODE", itoa_ℕ (first_count geom.per_node)) ∷ []
          else [])
        ++ (cpus_per_task_export cfg geom
            ++ ((codes "SLURM_JOB_CPUS_PER_NODE", compress_counts (raw_slots lay))
                ∷ (codes "SLURM_CPUS_ON_NODE", itoa_ℕ lay.master.slots)
                ∷ [])))

-- The exports of the job's names, and those with a fixed value.
unfoldable pub identity_exports : Env → FabricatedLayout → Who → Exports
identity_exports env lay id =
    if_set (codes "SLURM_JOB_PARTITION") lay.job.partition
    ++ (if_set (codes "SLURM_JOB_ACCOUNT") lay.job.account
        ++ (if_set (codes "SLURM_SUBMIT_DIR") lay.job.submit_dir
            ++ (if_set (codes "SLURM_SUBMIT_HOST") lay.job.submit_host
                ++ (if_set (codes "SLURM_CLUSTER_NAME") (env (codes "SGE_CELL"))
                    ++ (if_set (codes "SLURM_JOB_USER") id.user
                        ++ ((codes "SLURM_JOB_UID", itoa id.uid)
                            ∷ (codes "SLURM_JOB_GID", itoa id.gid)
                            ∷ (if_set (codes "SLURM_RESTART_COUNT")
                                  (trim_space (env (codes "RESTARTED")))
                                ++ ((codes "SLURM_DISTRIBUTION", codes "block")
                                    ∷ (if_set (codes "SLURM_LAUNCH_NODE_IPADDR") lay.master.ip
                                        ++ ((codes "SLURM_NODEID", codes "0")
                                            ∷ (codes "SLURM_PROCID", codes "0")
                                            ∷ (codes "SLURM_LOCALID", codes "0")
                                            ∷ (codes "SLURM_GTIDS", codes "0")
                                            ∷ []))))))))))

unfoldable pub master_exports : FabricatorConfig → FabricatedLayout → Exports
master_exports cfg lay =
    (if ltb 0 lay.job.mem_per_node_mb
      then (codes "SLURM_MEM_PER_NODE", itoa_ℕ lay.job.mem_per_node_mb) ∷ []
      else [])
    ++ (if cfg.export_master_addr
        then (codes "MASTER_ADDR", lay.master_addr)
          ∷ (codes "MASTER_PORT", itoa lay.master_port)
          ∷ []
        else [])

-- buildTableA
unfoldable pub build_table_a :
    Env → FabricatorConfig → TaskGeometry → FabricatedLayout → Who → Option ℤ → Exports
unfolding array_exports geometry_exports identity_exports gpu_exports master_exports
build_table_a env cfg geom lay id task =
    let job_id = itoa (env_int64 env (codes "JOB_ID")) in
    (codes "SLURM_JOB_ID", job_id)
    ∷ (codes "SLURM_JOBID", job_id)
    ∷ (if_set (codes "SLURM_JOB_NAME") lay.job.name
        ++ (array_exports env job_id task
            ++ (geometry_exports cfg lay geom
                ++ (identity_exports env lay id
                    ++ (gpu_exports cfg lay lay.master.gpus ++ master_exports cfg lay)))))
