-- ===== src/Fabricator/Assemble.antt =====
-- internal/fabricator/fabricate.go: splitSpares, buildLayout, buildTasks, assemble, addSpares and
-- validate, on an allocation that is read and whose devices, memory and policy are known. The
-- warnings are left out.
pub mod Valid
pub mod Cleared
use slurm_shim.Common.{
  ℕ, zero, suc, ◌+◌, ◌-◌, ◌*◌, ◌%◌, Bool, true, false, not, List, [], ◌∷◌, ◌++◌, map, Option, none,
  some, ◌==◌, ltb, leb, if◌then◌else◌, length, take, drop, Result, ok, err, ◌>>=◌,
}
use slurm_shim.Common.Int.{ℤ, pos, negsuc, ◌+ℤ◌, ◌*ℤ◌, neg}
use slurm_shim.Text.Bytes.{Bytes, codes, bytes_eq}
use slurm_shim.Text.Decimal.{itoa_ℕ}
use slurm_shim.Encoders.Rle.{RleError, expand_counts, int_eq}
use slurm_shim.Encoders.Nodelist.{compress_nodelist}
use slurm_shim.Encoders.Nodelist.Expand.{HostlistError, expand_nodelist}
use slurm_shim.Text.Int64.{wrap_int}
use slurm_shim.Plan.Policy.{Policy, NodeAlloc, TaskGeometry, PolicyError, no_nodes, apply_policy}
use slurm_shim.Fabricator.Quote.{FabricatorResult, sanitize_free_text, machine_value_ok}
use slurm_shim.Fabricator.Env.{Env, is_empty, env_int64, int_default, array_task_id}
use slurm_shim.Fabricator.Types.{
  FabricatedNode, FabricatedJob, RankEntry, FabricatedLayout, FabricatorConfig, Who,
}
use slurm_shim.Fabricator.Unsets.{unset_preamble, batch_device_unsets}
use slurm_shim.Fabricator.TableA.{Exports, build_table_a}

-- nodeInfo and gedata.Host.
pub record HostInfo : Type 0 where
  pub name : Bytes
  pub fqdn : Bytes
  pub slots : ℕ
  pub cluster_queue : Bytes
  pub processor_range : Bytes
  pub ip : Bytes
  pub gpus : List Bytes
  pub host_slots : ℕ

abbrev split_off : ℤ → List HostInfo → List HostInfo × List HostInfo
split_off (negsuc k) hosts = (hosts, [])
split_off (pos zero) hosts = (hosts, [])
split_off (pos (suc k)) hosts =
    let n = length hosts - suc k in
    if leb (length hosts) (suc k) then (hosts, []) else (take n hosts, drop n hosts)

-- splitSpares: the active hosts and the spares.
unfoldable pub split_spares : Env → List HostInfo → List HostInfo × List HostInfo
unfolding int_default
split_spares env hosts = split_off (int_default env (codes "SLURM_SHIM_SPARES") (pos 0)) hosts

-- The layout's node of a host.
abbrev pub to_node : Bool → ℕ → HostInfo → FabricatedNode
to_node is_master i h = record {
  index = i;
  host = h.name;
  fqdn = h.fqdn;
  ip = h.ip;
  slots = h.slots;
  processor_range = h.processor_range;
  gpus = h.gpus;
  host_slots = h.host_slots;
  is_master = is_master;
}

-- spareNodes, and the nodes behind the master, from index `i` on.
unfoldable pub to_nodes : ℕ → List HostInfo → List FabricatedNode
to_nodes i [] = []
to_nodes i (h ∷ hosts) = to_node false i h ∷ to_nodes (suc i) hosts

unfoldable pub local_entries : ℕ → ℕ → ℕ → ℕ → ℕ → List RankEntry
local_entries zero local rank node cpt = []
local_entries (suc count) local rank node cpt =
    record {
      rank = rank;
      node = node;
      local = local;
      cpuset = itoa_ℕ (local * cpt) ++ (b'-' ∷ itoa_ℕ (suc local * cpt - 1));
    }
    ∷ local_entries count (suc local) (suc rank) node cpt

unfoldable pub rank_entries : List ℕ → ℕ → ℕ → ℕ → List RankEntry
unfolding local_entries
rank_entries [] node rank cpt = []
rank_entries (count ∷ per_node) node rank cpt =
    local_entries count 0 rank node cpt ++ rank_entries per_node (suc node) (rank + count) cpt

-- buildTasks
unfoldable pub build_tasks : TaskGeometry → List RankEntry
unfolding rank_entries
build_tasks geom =
    rank_entries geom.per_node 0 0 (if geom.cpus_per_task == 0 then 1 else geom.cpus_per_task)

abbrev alias_of : List (Bytes × Bytes) → Bytes → Bytes
alias_of [] q = q
alias_of ((k, v) ∷ aliases) q = let rest = alias_of aliases q in if bytes_eq k q then v else rest

-- masterQueue
abbrev master_queue : Env → HostInfo → Bytes
master_queue env h = let q = env (codes "QUEUE") in if is_empty q then h.cluster_queue else q

-- submitDir
abbrev submit_dir : Env → Bytes
submit_dir env =
    let d = env (codes "SGE_O_WORKDIR") in if is_empty d then env (codes "SGE_CWD_PATH") else d

-- buildLayout, for a master and the other hosts.
unfoldable pub build_layout :
    Env
    → FabricatorConfig
    → HostInfo
    → List HostInfo
    → TaskGeometry
    → ℤ
    → Who
    → ℕ
    → Option ℤ
    → FabricatedLayout
unfolding to_nodes build_tasks env_int64 sanitize_free_text
build_layout env cfg h hosts geom port id memory task = record {
  job = record {
    job_id = env_int64 env (codes "JOB_ID");
    array_task_id = task;
    name = sanitize_free_text (env (codes "JOB_NAME"));
    user = id.user;
    uid = id.uid;
    gid = id.gid;
    queue = master_queue env h;
    partition = alias_of cfg.partition_aliases (master_queue env h);
    account = env (codes "SGE_ACCOUNT");
    submit_dir = submit_dir env;
    submit_host = env (codes "SGE_O_HOST");
    pe_name = env (codes "PE");
    mem_per_node_mb = memory;
  };
  master = to_node true 0 h;
  others = to_nodes 1 hosts;
  spares = [];
  rank_map = build_tasks geom;
  master_addr = h.name;
  master_port = port;
}

-- The errors of a fabrication on an allocation that is read.
pub data FabricateError : Type 0 where
  policy_refused : PolicyError → FabricateError
  tasks_check : RleError → FabricateError
  sum_differs : ℤ → ℕ → FabricateError
  nodelist_check : HostlistError → FabricateError
  nodes_differ : ℕ → ℕ → FabricateError
  bad_charset : Bytes → FabricateError

-- lookup
unfoldable pub lookup : Exports → Bytes → Bytes
lookup [] key = []
lookup ((k, v) ∷ es) key = let rest = lookup es key in if bytes_eq k key then v else rest

-- The loop adds the counts from left to right.
abbrev pub sum_counts : ℤ → List ℤ → ℤ
sum_counts sum [] = sum
sum_counts sum (c ∷ counts) = sum_counts (sum +ℤ c) counts

unfoldable pub check_nodelist :
    Bytes → ℕ → Result HostlistError (List Bytes) → Result FabricateError (Unit {0})
unfolding machine_value_ok
check_nodelist nodelist nodes (err e) = err (nodelist_check e)
check_nodelist nodelist nodes (ok expanded) =
    if not (length expanded == nodes)
    then err (nodes_differ (length expanded) nodes)
    else if not (machine_value_ok nodelist)
    then err (bad_charset nodelist)
    else ok tt

unfoldable pub check_counts :
    Bytes → ℕ → ℕ → Result RleError (List ℤ) → Result FabricateError (Unit {0})
unfolding check_nodelist expand_nodelist int_eq
check_counts nodelist nodes ntasks (err e) = err (tasks_check e)
check_counts nodelist nodes ntasks (ok counts) =
    if not (int_eq (sum_counts (pos 0) counts) (pos ntasks))
    then err (sum_differs (sum_counts (pos 0) counts) ntasks)
    else check_nodelist nodelist nodes (expand_nodelist nodelist)

-- validate
unfoldable pub validate :
    Exports → FabricatedLayout → TaskGeometry → Result FabricateError (Unit {0})
unfolding check_counts lookup expand_counts
validate exports lay geom =
    check_counts (lookup exports (codes "SLURM_JOB_NODELIST")) (length (lay.master ∷ lay.others))
      geom.ntasks (expand_counts (lookup exports (codes "SLURM_TASKS_PER_NODE")))

-- The layout and the emission.
pub record Fabricated : Type 0 where
  pub layout : FabricatedLayout
  pub result : FabricatorResult

-- Go's remainder of a signed number by a positive one, which has the sign of the number.
abbrev rem : ℤ → ℕ → ℤ
rem (pos m) n = pos (m % n)
rem (negsuc m) n = neg (pos (suc m % n))

abbrev task_or_zero : Option ℤ → ℤ
task_or_zero none = pos 0
task_or_zero (some n) = n

-- What assemble makes of a geometry, before its check.
unfoldable pub assembled :
    Env → FabricatorConfig → Who → ℕ → HostInfo → List HostInfo → TaskGeometry → Fabricated
unfolding build_layout build_table_a batch_device_unsets array_task_id env_int64 wrap_int
assembled env cfg id memory h hosts geom =
    let task = array_task_id env in
    let job_id = env_int64 env (codes "JOB_ID") in
    let offset = rem (wrap_int (job_id *ℤ pos 31 +ℤ task_or_zero task)) cfg.master_port_range in
    let port = wrap_int (cfg.master_port_base +ℤ offset) in
    let lay = build_layout env cfg h hosts geom port id memory task in
    record {
      layout = lay;
      result = record {
        unset = unset_preamble ++ batch_device_unsets cfg h.gpus;
        disabled = false;
        shim_bin_dir = [];
        exports = build_table_a env cfg geom lay id task;
      };
    }

abbrev pub checked :
    Fabricated → Result FabricateError (Unit {0}) → Result FabricateError Fabricated
checked f (err e) = err e
checked f (ok _) = ok f

unfoldable pub assemble_with :
    Env
    → FabricatorConfig
    → Who
    → ℕ
    → HostInfo
    → List HostInfo
    → Result PolicyError TaskGeometry
    → Result FabricateError Fabricated
unfolding assembled validate
assemble_with env cfg id memory h hosts (err e) = err (policy_refused e)
assemble_with env cfg id memory h hosts (ok geom) =
    let f = assembled env cfg id memory h hosts geom in
    checked f (validate f.result.exports f.layout geom)

abbrev pub allocation : HostInfo → NodeAlloc
allocation h = record { slots = h.slots; gpus = length h.gpus }

-- assemble
unfoldable pub assemble :
    Env
    → FabricatorConfig
    → Policy
    → Who
    → ℕ
    → HostInfo
    → List HostInfo
    → Result FabricateError Fabricated
unfolding assemble_with apply_policy
assemble env cfg policy id memory h hosts =
    assemble_with env cfg id memory h hosts (apply_policy policy (map allocation (h ∷ hosts)))

-- addSpares
unfoldable pub add_spares : Fabricated → List HostInfo → Fabricated
unfolding to_nodes compress_nodelist
add_spares f [] = f
add_spares f (s ∷ spares) = record {
  layout = record f.layout { spares = to_nodes 0 (s ∷ spares) };
  result = record f.result {
    exports =
        f.result.exports
        ++ ((
          codes "SLURM_X_SPARE_NODELIST",
          compress_nodelist (map (λ (h : HostInfo). h.name) (s ∷ spares)),
        )
            ∷ []);
  };
}

add_to : List HostInfo → Result FabricateError Fabricated → Result FabricateError Fabricated
unfolding add_spares
add_to spares (err e) = err e
add_to spares (ok f) = ok (add_spares f spares)

fabricate_on :
    Env
    → FabricatorConfig
    → Policy
    → Who
    → ℕ
    → List HostInfo × List HostInfo
    → Result FabricateError Fabricated
unfolding add_to assemble
fabricate_on env cfg policy id memory ([], spares) = err (policy_refused no_nodes)
fabricate_on env cfg policy id memory (h ∷ hosts, spares) =
    add_to spares (assemble env cfg policy id memory h hosts)

-- Fabricate, for a job that does not disable it.
unfoldable pub fabricate :
    Env → FabricatorConfig → Policy → Who → ℕ → List HostInfo → Result FabricateError Fabricated
unfolding fabricate_on split_spares
fabricate env cfg policy id memory hosts =
    fabricate_on env cfg policy id memory (split_spares env hosts)
