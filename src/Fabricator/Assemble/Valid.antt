-- ===== src/Fabricator/Assemble/Valid.antt =====
-- The checks of validate (internal/fabricator/fabricate.go) on what assemble puts together.
use slurm_shim.Common.{
  ℕ, suc, ◌+◌, ◌≤◌, true, false, ◌||◌, List, [], ◌∷◌, ◌++◌, map, Option, none, some, ◌≡◌, ◌≢◌, refl,
  sym, ap, ◌∙◌, subst, arith, ◌==◌, All, length, ok, ==_refl, ◌⊎◌, inl, inr,
}
use slurm_shim.Common.Int.{ℤ, pos}
use slurm_shim.Text.Bytes.{Bytes, codes, bytes_eq}
use slurm_shim.Text.Decimal.{itoa, max_int, InInt}
use slurm_shim.Encoders.Rle.{compress_counts, expand_counts, int_eq}
use slurm_shim.Encoders.Rle.RoundTrip.{expand_counts-compress_counts}
use slurm_shim.Encoders.Nodelist.{compress_nodelist}
use slurm_shim.Encoders.Nodelist.Expand.{expand_nodelist}
use slurm_shim.Encoders.Nodelist.Names.{IsHost}
use slurm_shim.Encoders.Nodelist.RoundTrip.{expand_nodelist-compress_nodelist}
use slurm_shim.Encoders.Nodelist.Charset.{compress_nodelist-All}
use slurm_shim.Plan.Policy.{Policy, TaskGeometry, sum, apply_policy}
use slurm_shim.Plan.Policy.Counts.{apply_policy-Counts}
use slurm_shim.Fabricator.Quote.{machine_value_ok, is_alnum, contains}
use slurm_shim.Fabricator.Env.{Env, array_task_id, ArrayRange, slurm_array_coords, env_int64}
use slurm_shim.Fabricator.Types.{FabricatedNode, FabricatedLayout, FabricatorConfig, Who}
use slurm_shim.Fabricator.TableA.{
  Exports, if_set, array_range_exports, array_exports, geometry_exports, node_names, build_table_a,
}
use slurm_shim.Fabricator.Assemble.{
  HostInfo, to_nodes, build_layout, lookup, sum_counts, check_nodelist, check_counts, validate,
  Fabricated, assembled, checked, assemble_with, assemble, allocation,
}

lookup-if_set :
    (k v key : Bytes) (es : Exports)
    → bytes_eq k key ≡ false
    → lookup (if_set k v ++ es) key ≡ lookup es key
unfolding lookup
lookup-if_set k [] key es other = refl
lookup-if_set k (c ∷ v) key es other = rw other refl

-- The two exports that validate reads stand behind the job's names and the array's.
lookup-array :
    (env : Env) (job_id : Bytes) (task : Option ℤ) (es : Exports) (key : Bytes)
    → (key ≡ codes "SLURM_JOB_NODELIST") ⊎ (key ≡ codes "SLURM_TASKS_PER_NODE")
    → lookup (array_exports env job_id task ++ es) key ≡ lookup es key
unfolding lookup array_exports
lookup-array env job_id none es key which = refl
lookup-array env job_id (some task) es key which = elim which [
  | inl nodelist ↦ rw nodelist (range_nodelist (slurm_array_coords env task).range)
  | inr tasks ↦ rw tasks (range_tasks (slurm_array_coords env task).range)
]
  where
    range_nodelist :
        (r : Option ArrayRange)
        → lookup (array_range_exports r ++ es) (codes "SLURM_JOB_NODELIST")
          ≡ lookup es (codes "SLURM_JOB_NODELIST")
    range_nodelist none = refl
    range_nodelist (some r) = refl

    range_tasks :
        (r : Option ArrayRange)
        → lookup (array_range_exports r ++ es) (codes "SLURM_TASKS_PER_NODE")
          ≡ lookup es (codes "SLURM_TASKS_PER_NODE")
    range_tasks none = refl
    range_tasks (some r) = refl

lookup-nodelist :
    (env : Env) (cfg : FabricatorConfig) (geom : TaskGeometry) (lay : FabricatedLayout) (id : Who)
    (task : Option ℤ)
    → lookup (build_table_a env cfg geom lay id task) (codes "SLURM_JOB_NODELIST")
      ≡ compress_nodelist (node_names lay)
unfolding lookup build_table_a geometry_exports
lookup-nodelist env cfg geom lay id task =
    lookup-if_set (codes "SLURM_JOB_NAME") lay.job.name (codes "SLURM_JOB_NODELIST") _ refl
    ∙ lookup-array env (itoa (env_int64 env (codes "JOB_ID"))) task _ (codes "SLURM_JOB_NODELIST")
        (inl refl)

lookup-tasks :
    (env : Env) (cfg : FabricatorConfig) (geom : TaskGeometry) (lay : FabricatedLayout) (id : Who)
    (task : Option ℤ)
    → lookup (build_table_a env cfg geom lay id task) (codes "SLURM_TASKS_PER_NODE")
      ≡ compress_counts (map pos geom.per_node)
unfolding lookup build_table_a geometry_exports
lookup-tasks env cfg geom lay id task =
    lookup-if_set (codes "SLURM_JOB_NAME") lay.job.name (codes "SLURM_TASKS_PER_NODE") _ refl
    ∙ lookup-array env (itoa (env_int64 env (codes "JOB_ID"))) task _ (codes "SLURM_TASKS_PER_NODE")
        (inr refl)

sum_counts-pos : (acc : ℕ) (xs : List ℕ) → sum_counts (pos acc) (map pos xs) ≡ pos (acc + sum xs)
sum_counts-pos acc [] = let same : acc ≡ acc + 0 = omega arith in ap pos same
sum_counts-pos acc (x ∷ xs) =
    let same : acc + x + sum xs ≡ acc + (x + sum xs) = omega arith in
    sum_counts-pos (acc + x) xs ∙ ap pos same

node_hosts-to_nodes :
    (i : ℕ) (hosts : List HostInfo)
    → map (λ (n : FabricatedNode). n.host) (to_nodes i hosts) ≡ map (λ (h : HostInfo). h.name) hosts
unfolding to_nodes
node_hosts-to_nodes i [] = refl
node_hosts-to_nodes i (h ∷ hosts) = ap (λ r. h.name ∷ r) (node_hosts-to_nodes (suc i) hosts)

length-to_nodes : (i : ℕ) (hosts : List HostInfo) → length (to_nodes i hosts) ≡ length hosts
unfolding to_nodes
length-to_nodes i [] = refl
length-to_nodes i (h ∷ hosts) = ap suc (length-to_nodes (suc i) hosts)

length-map {ℓ κ} :
    {A : Type ℓ} {B : Type κ} (f : A → B) (xs : List A) → length (map f xs) ≡ length xs
length-map f [] = refl
length-map f (x ∷ xs) = ap suc (length-map f xs)

-- A byte of the charset that validate asks of a nodelist.
abbrev pub IsMachineByte : ℕ → Type 0
IsMachineByte c = is_alnum c || contains (codes "[](),.:=_-") c ≡ true

machine_value_ok-true : (s : Bytes) → All IsMachineByte s → machine_value_ok s ≡ true
unfolding machine_value_ok
machine_value_ok-true [] h = refl
machine_value_ok-true (c ∷ s) (hc, hs) = rw hc (machine_value_ok-true s hs)

int_eq_refl : (z : ℤ) → int_eq z z ≡ true
unfolding int_eq
int_eq_refl (pos n) = ==_refl n
int_eq_refl (ℤ.negsuc n) = ==_refl n

counts-InInt : (xs : List ℕ) → All (λ x. x ≤ max_int) xs → All InInt (map pos xs)
counts-InInt [] h = tt
counts-InInt (x ∷ xs) (hx, h) = (hx, counts-InInt xs h)

map-ne-nil : (xs : List ℕ) (n : ℕ) → length xs ≡ suc n → map pos xs ≢ []
map-ne-nil [] n e = absurd (omega (arith, e))
map-ne-nil (x ∷ xs) n e = λ f. cc

-- The checks that validate makes of what the encoders read back.
check_counts-ok :
    (nodelist : Bytes) (names : List Bytes) (nodes ntasks : ℕ) (counts : List ℤ)
    → sum_counts (pos 0) counts ≡ pos ntasks
    → expand_nodelist nodelist ≡ ok names
    → length names ≡ nodes
    → machine_value_ok nodelist ≡ true
    → check_counts nodelist nodes ntasks (ok counts) ≡ ok tt
unfolding check_counts check_nodelist
check_counts-ok nodelist names nodes ntasks counts summed read count machine =
    let total : int_eq (sum_counts (pos 0) counts) (pos ntasks) ≡ true =
      ap (λ z. int_eq z (pos ntasks)) summed ∙ int_eq_refl (pos ntasks) in
    let nodes_same : (length names == nodes) ≡ true = ap (λ n. n == nodes) count ∙ ==_refl nodes in
    rw total (ap (check_nodelist nodelist nodes) read ∙ rw nodes_same (rw machine refl))

abbrev pub host_names : List HostInfo → List Bytes
host_names = map (λ (h : HostInfo). h.name)

validate-ok :
    (exports : Exports) (lay : FabricatedLayout) (geom : TaskGeometry)
    → lookup exports (codes "SLURM_JOB_NODELIST") ≡ compress_nodelist (node_names lay)
    → lookup exports (codes "SLURM_TASKS_PER_NODE") ≡ compress_counts (map pos geom.per_node)
    → sum geom.per_node ≡ geom.ntasks
    → length geom.per_node ≡ suc (length lay.others)
    → length geom.per_node ≤ max_int
    → All (λ c. c ≤ max_int) geom.per_node
    → All IsHost (node_names lay)
    → All (All IsMachineByte) (node_names lay)
    → validate exports lay geom ≡ ok tt
unfolding validate
validate-ok exports lay geom nodelist tasks summed each many counts hosts machine =
    ap
      (λ text.
        check_counts (lookup exports (codes "SLURM_JOB_NODELIST"))
          (length (lay.master ∷ lay.others)) geom.ntasks (expand_counts text))
      tasks
    ∙ ap
        (check_counts (lookup exports (codes "SLURM_JOB_NODELIST"))
          (length (lay.master ∷ lay.others)) geom.ntasks)
        (expand_counts-compress_counts (map pos geom.per_node)
          (map-ne-nil geom.per_node (length lay.others) each) (counts-InInt geom.per_node counts)
          (omega (arith, length-map pos geom.per_node, many)))
    ∙ ap
        (λ text.
          check_counts text (length (lay.master ∷ lay.others)) geom.ntasks
            (ok (map pos geom.per_node)))
        nodelist
    ∙ check_counts-ok (compress_nodelist (node_names lay)) (node_names lay)
        (length (lay.master ∷ lay.others)) geom.ntasks (map pos geom.per_node)
        (sum_counts-pos 0 geom.per_node
          ∙ ap pos
              (let same : 0 + sum geom.per_node ≡ sum geom.per_node = omega arith in same ∙ summed))
        (expand_nodelist-compress_nodelist (node_names lay) (λ e. cc) hosts)
        (length-map (λ (n : FabricatedNode). n.host) (lay.master ∷ lay.others))
        (machine_value_ok-true (compress_nodelist (node_names lay))
          (compress_nodelist-All IsMachineByte refl refl refl refl (node_names lay) machine))

pub assemble-assembled :
    (env : Env) (cfg : FabricatorConfig) (policy : Policy) (id : Who) (memory : ℕ) (h : HostInfo)
    (hosts : List HostInfo) (geom : TaskGeometry)
    → apply_policy policy (map allocation (h ∷ hosts)) ≡ ok geom
    → All IsHost (host_names (h ∷ hosts))
    → All (All IsMachineByte) (host_names (h ∷ hosts))
    → All (λ c. c ≤ max_int) geom.per_node
    → length (h ∷ hosts) ≤ max_int
    → assemble env cfg policy id memory h hosts ≡ ok (assembled env cfg id memory h hosts geom)
unfolding assemble assemble_with assembled build_layout
assemble-assembled env cfg policy id memory h hosts geom given named machine counts many =
    let f : Fabricated = assembled env cfg id memory h hosts geom in
    let (summed, each) = apply_policy-Counts policy (map allocation (h ∷ hosts)) given in
    let nodes = length-map allocation (h ∷ hosts) in
    let others = length-to_nodes 1 hosts in
    let names : node_names f.layout ≡ host_names (h ∷ hosts) =
      ap (λ r. h.name ∷ r) (node_hosts-to_nodes 1 hosts) in
    ap (assemble_with env cfg id memory h hosts) given
    ∙ ap (checked f) (
        validate-ok f.result.exports f.layout geom
          (lookup-nodelist env cfg geom f.layout id (array_task_id env))
          (lookup-tasks env cfg geom f.layout id (array_task_id env)) summed
          (omega (arith, each, nodes, others)) (omega (arith, each, nodes, many)) counts
          (subst (All IsHost) (sym names) named)
          (subst (All (All IsMachineByte)) (sym names) machine))
