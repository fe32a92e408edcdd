-- ===== src/Fabricator/TableA/Scrub.antt =====
-- Every variable that Table A of internal/fabricator exports is one that the emission clears first.
use slurm_shim.Common.{
  ℕ, Bool, true, false, ◌||◌, List, [], ◌∷◌, ◌++◌, Option, none, some, ◌≡◌, refl, ap, ◌∙◌, ltb,
  if◌then◌else◌, Bool-cases, Option-cases, inl, inr, some_inj, subst,
}
use slurm_shim.Common.Int.{ℤ}
use slurm_shim.Text.Bytes.{Bytes, codes, bytes_eq}
use slurm_shim.Text.Split.{trim_space}
use slurm_shim.Plan.Policy.{TaskGeometry}
use slurm_shim.Fabricator.Env.{Env, is_empty, env_int64, ArrayRange, slurm_array_coords}
use slurm_shim.Text.Decimal.{itoa, itoa_ℕ}
use slurm_shim.Fabricator.Types.{FabricatedLayout, FabricatorConfig, Who}
use slurm_shim.Fabricator.Unsets.{
  normalize_vendor, device_vars, vendor_var, dropped_vars, device_vars_of, is_cgroup,
  batch_device_var, batch_device_unsets, unset_preamble,
}
use slurm_shim.Fabricator.TableA.{
  Exports, if_set, uniform, first_count, array_range_exports, array_exports, gpus_per_node_export,
  gpu_exports, uniform_gpu_count, cpus_per_task_export, geometry_exports, identity_exports,
  master_exports, build_table_a,
}

abbrev pub has_key : List Bytes → Bytes → Bool
has_key [] k = false
has_key (x ∷ xs) k = bytes_eq x k || has_key xs k

or_mono : (a b c : Bool) → (b ≡ true → c ≡ true) → (a || b) ≡ true → (a || c) ≡ true
or_mono true b c f h = refl
or_mono false b c f h = f h

has_key-front : (xs ys : List Bytes) (k : Bytes) → has_key xs k ≡ true → has_key (xs ++ ys) k ≡ true
has_key-front [] ys k h = cc
has_key-front (x ∷ xs) ys k h =
    or_mono (bytes_eq x k) (has_key xs k) (has_key (xs ++ ys) k) (has_key-front xs ys k) h

has_key-back : (xs ys : List Bytes) (k : Bytes) → has_key ys k ≡ true → has_key (xs ++ ys) k ≡ true
has_key-back [] ys k h = h
has_key-back (x ∷ xs) ys k h =
    or_right (bytes_eq x k) (has_key (xs ++ ys) k) (has_key-back xs ys k h)
  where
    or_right : (a b : Bool) → b ≡ true → (a || b) ≡ true
    or_right true b h = refl
    or_right false b h = h

dropped_vars-all : (write : Bytes) (names : List Bytes) → dropped_vars write false names ≡ names
unfolding dropped_vars
dropped_vars-all write [] = refl
dropped_vars-all write (name ∷ names) = elim (Bool-cases (bytes_eq name write)) [
  | inl same ↦ rw same (ap (λ r. name ∷ r) (dropped_vars-all write names))
  | inr other ↦ rw other (ap (λ r. name ∷ r) (dropped_vars-all write names))
]

vendor_var-device_vars :
    (v write : Bytes) → vendor_var v ≡ some write → has_key device_vars write ≡ true
unfolding vendor_var
vendor_var-device_vars v write e =
    chosen (is_empty v || bytes_eq v (codes "nvidia")) (bytes_eq v (codes "amd")) e
  where
    chosen :
        (nvidia amd : Bool)
        → (if nvidia
            then some (codes "CUDA_VISIBLE_DEVICES")
            else if amd
            then some (codes "ROCR_VISIBLE_DEVICES")
            else none)
          ≡ some write
        → has_key device_vars write ≡ true
    chosen true amd e = subst (λ w. has_key device_vars w ≡ true) (some_inj e) refl
    chosen false true e = subst (λ w. has_key device_vars w ≡ true) (some_inj e) refl
    chosen false false e = cc

-- The variables that the emission clears first: the preamble, and the vendors' device variables.
abbrev pub cleared : FabricatorConfig → FabricatedLayout → List Bytes
cleared cfg lay = unset_preamble ++ batch_device_unsets cfg lay.master.gpus

-- The keys of some exports are all among the names.
pub data HasKeys (ks : List Bytes) : Exports → Type 0 where
  no_keys : HasKeys ks []
  key_and :
      {k v : Bytes} {es : Exports} → has_key ks k ≡ true → HasKeys ks es → HasKeys ks ((k, v) ∷ es)

keys-append :
    {ks : List Bytes} {es fs : Exports} → HasKeys ks es → HasKeys ks fs → HasKeys ks (es ++ fs)
keys-append no_keys hf = hf
keys-append (key_and h hs) hf = key_and h (keys-append hs hf)

written-cleared :
    (pre names : List Bytes) (write : Bytes) (cgroup : Bool)
    → cgroup ≡ false
    → has_key names write ≡ true
    → has_key (pre ++ dropped_vars write cgroup names) write ≡ true
written-cleared pre names write cgroup e h =
    has_key-back pre (dropped_vars write cgroup names) write (
      ap (λ (b : Bool). has_key (dropped_vars write b names) write) e
      ∙ ap (λ ks. has_key ks write) (dropped_vars-all write names)
      ∙ h)

batch_device_var-HasKeys :
    (cfg : FabricatorConfig) (g : Bytes) (gpus : List Bytes)
    → HasKeys
        (unset_preamble ++ batch_device_unsets cfg (g ∷ gpus))
        (batch_device_var cfg (g ∷ gpus))
unfolding batch_device_var batch_device_unsets device_vars_of
batch_device_var-HasKeys cfg g gpus = elim (Bool-cases (is_cgroup cfg)) [
  | inl cgroup ↦ rw cgroup no_keys
  | inr devices ↦ elim (Option-cases (vendor_var (normalize_vendor cfg.vendor))) [
    | inl unknown ↦ rw devices (rw unknown no_keys)
    | inr (write, known) ↦ rw devices (
        rw known (
          key_and
            (written-cleared unset_preamble device_vars write (is_cgroup cfg) devices
              (vendor_var-device_vars (normalize_vendor cfg.vendor) write known))
            no_keys))
  ]
]

-- The groups of Table A, each under the preamble and whatever else is cleared.
module _ (more : List Bytes) where
  front : (k : Bytes) → has_key unset_preamble k ≡ true → has_key (unset_preamble ++ more) k ≡ true
  front k h = has_key-front unset_preamble more k h

  if_set-HasKeys :
      (k v : Bytes)
      → has_key unset_preamble k ≡ true
      → HasKeys (unset_preamble ++ more) (if_set k v)
  if_set-HasKeys k [] h = no_keys
  if_set-HasKeys k (c ∷ v) h = key_and (front k h) no_keys

  if-HasKeys :
      (b : Bool) (es : Exports)
      → HasKeys (unset_preamble ++ more) es
      → HasKeys (unset_preamble ++ more) (if b then es else [])
  if-HasKeys true es h = h
  if-HasKeys false es h = no_keys

  array_range-HasKeys :
      (r : Option ArrayRange) → HasKeys (unset_preamble ++ more) (array_range_exports r)
  unfolding array_range_exports
  array_range-HasKeys none = no_keys
  array_range-HasKeys (some r) = key_and (front (codes "SLURM_ARRAY_TASK_MIN") refl) (
      key_and (front (codes "SLURM_ARRAY_TASK_MAX") refl) (
        key_and (front (codes "SLURM_ARRAY_TASK_STEP") refl)
          (key_and (front (codes "SLURM_ARRAY_TASK_COUNT") refl) no_keys)))

  array_exports-HasKeys :
      (env : Env) (job_id : Bytes) (task : Option ℤ)
      → HasKeys (unset_preamble ++ more) (array_exports env job_id task)
  unfolding array_exports
  array_exports-HasKeys env job_id none = no_keys
  array_exports-HasKeys env job_id (some task) = key_and (front (codes "SLURM_ARRAY_JOB_ID") refl) (
      key_and (front (codes "SLURM_ARRAY_TASK_ID") refl)
        (array_range-HasKeys (slurm_array_coords env task).range))

  cpus_per_task-HasKeys :
      (cfg : FabricatorConfig) (geom : TaskGeometry)
      → HasKeys (unset_preamble ++ more) (cpus_per_task_export cfg geom)
  unfolding cpus_per_task_export
  cpus_per_task-HasKeys cfg geom = chosen geom.cpus_per_task_set cfg.emit_cpus_per_task
    where
      chosen :
          (set emit : Bool)
          → HasKeys (unset_preamble ++ more) (
              if set
              then (codes "SLURM_CPUS_PER_TASK", itoa_ℕ geom.cpus_per_task) ∷ []
              else if emit
              then (codes "SLURM_CPUS_PER_TASK", codes "1") ∷ []
              else [])
      chosen true emit = key_and (front (codes "SLURM_CPUS_PER_TASK") refl) no_keys
      chosen false true = key_and (front (codes "SLURM_CPUS_PER_TASK") refl) no_keys
      chosen false false = no_keys

  geometry_exports-HasKeys :
      (cfg : FabricatorConfig) (lay : FabricatedLayout) (geom : TaskGeometry)
      → HasKeys (unset_preamble ++ more) (geometry_exports cfg lay geom)
  unfolding geometry_exports cpus_per_task_export
  geometry_exports-HasKeys cfg lay geom = key_and (front (codes "SLURM_JOB_NUM_NODES") refl) (
      key_and (front (codes "SLURM_NNODES") refl) (
        key_and (front (codes "SLURM_JOB_NODELIST") refl) (
          key_and (front (codes "SLURM_NODELIST") refl) (
            key_and (front (codes "SLURM_TASKS_PER_NODE") refl) (
              key_and (front (codes "SLURM_NTASKS") refl) (
                key_and (front (codes "SLURM_NPROCS") refl) (
                  keys-append
                    (if-HasKeys (uniform geom.per_node)
                      ((codes "SLURM_NTASKS_PER_NODE", itoa_ℕ (first_count geom.per_node)) ∷ [])
                      (key_and (front (codes "SLURM_NTASKS_PER_NODE") refl) no_keys))
                    (keys-append (cpus_per_task-HasKeys cfg geom) (
                      key_and (front (codes "SLURM_JOB_CPUS_PER_NODE") refl)
                        (key_and (front (codes "SLURM_CPUS_ON_NODE") refl) no_keys))))))))))

  identity_exports-HasKeys :
      (env : Env) (lay : FabricatedLayout) (id : Who)
      → HasKeys (unset_preamble ++ more) (identity_exports env lay id)
  unfolding identity_exports
  identity_exports-HasKeys env lay id =
      keys-append (if_set-HasKeys (codes "SLURM_JOB_PARTITION") lay.job.partition refl) (
        keys-append (if_set-HasKeys (codes "SLURM_JOB_ACCOUNT") lay.job.account refl) (
          keys-append (if_set-HasKeys (codes "SLURM_SUBMIT_DIR") lay.job.submit_dir refl) (
            keys-append (if_set-HasKeys (codes "SLURM_SUBMIT_HOST") lay.job.submit_host refl) (
              keys-append
                (if_set-HasKeys (codes "SLURM_CLUSTER_NAME") (env (codes "SGE_CELL")) refl)
                (keys-append (if_set-HasKeys (codes "SLURM_JOB_USER") id.user refl) (
                  key_and (front (codes "SLURM_JOB_UID") refl) (
                    key_and (front (codes "SLURM_JOB_GID") refl) (
                      keys-append
                        (if_set-HasKeys (codes "SLURM_RESTART_COUNT")
                          (trim_space (env (codes "RESTARTED"))) refl)
                        (key_and (front (codes "SLURM_DISTRIBUTION") refl) (
                          keys-append
                            (if_set-HasKeys (codes "SLURM_LAUNCH_NODE_IPADDR") lay.master.ip refl)
                            (key_and (front (codes "SLURM_NODEID") refl) (
                              key_and (front (codes "SLURM_PROCID") refl) (
                                key_and (front (codes "SLURM_LOCALID") refl)
                                  (key_and (front (codes "SLURM_GTIDS") refl) no_keys))))))))))))))

  master_exports-HasKeys :
      (cfg : FabricatorConfig) (lay : FabricatedLayout)
      → HasKeys (unset_preamble ++ more) (master_exports cfg lay)
  unfolding master_exports
  master_exports-HasKeys cfg lay =
      keys-append
        (if-HasKeys (ltb 0 lay.job.mem_per_node_mb)
          ((codes "SLURM_MEM_PER_NODE", itoa_ℕ lay.job.mem_per_node_mb) ∷ [])
          (key_and (front (codes "SLURM_MEM_PER_NODE") refl) no_keys))
        (if-HasKeys cfg.export_master_addr
          ((codes "MASTER_ADDR", lay.master_addr)
            ∷ (codes "MASTER_PORT", itoa lay.master_port)
            ∷ [])
          (key_and (front (codes "MASTER_ADDR") refl)
            (key_and (front (codes "MASTER_PORT") refl) no_keys)))

gpu_exports-HasKeys :
    (cfg : FabricatorConfig) (lay : FabricatedLayout) (gpus : List Bytes)
    → HasKeys (unset_preamble ++ batch_device_unsets cfg gpus) (gpu_exports cfg lay gpus)
unfolding gpu_exports gpus_per_node_export
gpu_exports-HasKeys cfg lay [] = no_keys
gpu_exports-HasKeys cfg lay (g ∷ gpus) =
    key_and (front (batch_device_unsets cfg (g ∷ gpus)) (codes "SLURM_GPUS_ON_NODE") refl) (
      key_and (front (batch_device_unsets cfg (g ∷ gpus)) (codes "SLURM_JOB_GPUS") refl)
        (keys-append (per_node (uniform_gpu_count lay)) (batch_device_var-HasKeys cfg g gpus)))
  where
    per_node :
        (n : Option ℕ)
        → HasKeys (unset_preamble ++ batch_device_unsets cfg (g ∷ gpus)) (gpus_per_node_export n)
    per_node none = no_keys
    per_node (some n) =
        key_and (front (batch_device_unsets cfg (g ∷ gpus)) (codes "SLURM_GPUS_PER_NODE") refl)
          no_keys

-- Every variable that Table A exports, whatever the job and the configuration, is one of the
-- preamble, or a device variable that goes with the devices of the master.
pub build_table_a-HasKeys :
    (env : Env) (cfg : FabricatorConfig) (geom : TaskGeometry) (lay : FabricatedLayout) (id : Who)
    (task : Option ℤ)
    → HasKeys (cleared cfg lay) (build_table_a env cfg geom lay id task)
unfolding build_table_a
build_table_a-HasKeys env cfg geom lay id task =
    let more : List Bytes = batch_device_unsets cfg lay.master.gpus in
    key_and (front more (codes "SLURM_JOB_ID") refl) (
      key_and (front more (codes "SLURM_JOBID") refl) (
        keys-append (if_set-HasKeys more (codes "SLURM_JOB_NAME") lay.job.name refl) (
          keys-append (array_exports-HasKeys more env (itoa (env_int64 env (codes "JOB_ID"))) task)
            (keys-append (geometry_exports-HasKeys more cfg lay geom) (
              keys-append (identity_exports-HasKeys more env lay id) (
                keys-append (gpu_exports-HasKeys cfg lay lay.master.gpus)
                  (master_exports-HasKeys more cfg lay)))))))
