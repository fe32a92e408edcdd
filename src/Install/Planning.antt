-- ===== src/Install/Planning.antt =====
-- internal/install/plan.go. A method that appends to the changes of the plan returns what it appends.
pub mod Safety
pub mod Rerun
use slurm_shim.Common.{
  ℕ, ◌-◌, Bool, true, false, ◌&&◌, ◌||◌, not, List, [], ◌∷◌, ◌++◌, Option, none, some, ◌==◌,
  if◌then◌else◌, length, take,
}
use slurm_shim.Common.Int.{ℤ, pos, negsuc}
use slurm_shim.Text.Bytes.{Bytes, codes, bytes_eq, has_suffix}
use slurm_shim.Text.Split.{join}
use slurm_shim.Text.Decimal.{itoa}
use slurm_shim.Encoders.Rle.{int_eq}
use slurm_shim.Install.Types.{
  Pe, Queue, Complex, Facts, Options, ChangeKind, Change, Partition, InstallPlan, add_pe,
  set_pe_attr, add_to_pe_list, set_starter, add_complex, add_queue, refused, unchanged, find_queue,
  find_pe, find_complex,
}
use slurm_shim.Install.Paths.{equal_fold, join_path}
use slurm_shim.Install.Selection.{
  default_queue_name, shim_complex, shim_request, contains, change, select_queues,
}

abbrev pub default_pe_name : Bytes
default_pe_name = codes "slurm-shim"

abbrev pub pe_slots_no_cap : ℤ
pe_slots_no_cap = pos 9999999

abbrev pub legacy_pe_slots : ℤ
legacy_pe_slots = pos 999

unfoldable pub reference_pe : Bytes → Bytes → Pe
unfolding join_path
reference_pe name prefix = record {
  name = name;
  slots = pe_slots_no_cap;
  start_proc_args = join_path (prefix ∷ codes "bin" ∷ codes "slurm-shim-env" ∷ []);
  stop_proc_args = codes "NONE";
  allocation_rule = codes "$round_robin";
  control_slaves = true;
  job_is_first_task = false;
  master_forks_slaves = false;
  daemon_forks_slaves = false;
}

is_add_complex : ChangeKind → Bool
is_add_complex add_complex = true
is_add_complex _ = false

adds_complex : List Change → Bool
unfolding is_add_complex
adds_complex [] = false
adds_complex (c ∷ cs) = is_add_complex c.kind || adds_complex cs

unfoldable pub partition_request : Facts → List Change → Bytes → Bytes
unfolding find_complex adds_complex
partition_request f changes queue =
    if not (bytes_eq queue default_queue_name)
    then []
    else elim (find_complex f.complexes shim_complex) [
      | some c ↦ shim_request
      | none ↦ if adds_complex changes then shim_request else []
    ]

unfoldable pub starter_path : Bytes → Bytes
unfolding join_path
starter_path prefix = join_path (prefix ∷ codes "bin" ∷ codes "slurm-shim-starter" ∷ [])

-- A difference of an existing parallel environment from the reference: attribute, old, new.
abbrev pub Fix : Type 0
Fix = Bytes × Bytes × Bytes

unfoldable pub fixes_of : Pe → Pe → List Fix
fixes_of have want =
    (if bytes_eq have.start_proc_args want.start_proc_args
      then []
      else (codes "start_proc_args", have.start_proc_args, want.start_proc_args) ∷ [])
    ++ (if have.control_slaves
        then []
        else (codes "control_slaves", codes "FALSE", codes "TRUE") ∷ [])

raise_of : Pe → List Change
unfolding change itoa
raise_of have =
    if bytes_eq have.name default_pe_name && int_eq have.slots legacy_pe_slots
    then change set_pe_attr have.name (codes "slots") (itoa legacy_pe_slots) (itoa pe_slots_no_cap)
      ∷ []
    else []

fix_changes : Bytes → Bool → List Fix → List Change
unfolding change
fix_changes object force [] = []
fix_changes object force ((attr, old, new) ∷ fixes) =
    change (if force then set_pe_attr else refused) object attr old new
    ∷ fix_changes object force fixes

repair_of : Pe → Bool → List Change → List Fix → List Change
unfolding fix_changes change
repair_of have force [] [] =
    change unchanged have.name (codes "start_proc_args") have.start_proc_args have.start_proc_args
    ∷ []
repair_of have force (c ∷ raise) [] = c ∷ raise
repair_of have force raise (x ∷ fixes) = raise ++ fix_changes have.name force (x ∷ fixes)

unfoldable pub plan_pe_repair : Pe → Pe → Bool → List Change
unfolding repair_of raise_of fixes_of
plan_pe_repair have want force = repair_of have force (raise_of have) (fixes_of have want)

-- The parallel environment: created, accepted, refused or repaired.
unfoldable pub pe_changes : Options → Pe → Option Pe → List Change
unfolding plan_pe_repair
pe_changes o want none =
    record {
      kind = add_pe;
      object = o.pe_name;
      attr = [];
      old = [];
      new = want.start_proc_args;
      pe = some want;
    }
    ∷ []
pe_changes o want (some have) = plan_pe_repair have want o.force

pe_list_change : Options → Queue → Change
unfolding contains change join
pe_list_change o q =
    if contains q.pe_list o.pe_name
    then change unchanged q.name (codes "pe_list") o.pe_name o.pe_name
    else change add_to_pe_list q.name (codes "pe_list") (join q.pe_list b' ') o.pe_name

starter_change : Options → Bytes → Queue → Change
unfolding change
starter_change o starter q =
    if bytes_eq q.starter_method starter
    then change unchanged q.name (codes "starter_method") starter starter
    else if bytes_eq q.starter_method []
    then change set_starter q.name (codes "starter_method") [] starter
    else if o.force
    then change set_starter q.name (codes "starter_method") q.starter_method starter
    else change refused q.name (codes "starter_method") q.starter_method starter

-- The loop over the target queues: all changes so far, and the partitions.
unfoldable pub wire_queues :
    Facts → Options → Bytes → List Change → List Queue → List Change × List Partition
unfolding pe_list_change starter_change partition_request
wire_queues f o starter changes [] = (changes, [])
wire_queues f o starter changes (q ∷ qs) =
    let now = changes ++ (pe_list_change o q ∷ starter_change o starter q ∷ []) in
    let (all, partitions) = wire_queues f o starter now qs in
    (
      all,
      record {
        name = partition_name q.name;
        queue = q.name;
        request = partition_request f now q.name;
      }
          ∷ partitions,
    )
  where
    partition_name : Bytes → Bytes
    partition_name queue =
        if has_suffix queue (codes ".q") then take (length queue - 2) queue else queue

-- all.q's partition, else the first.
all_q_partition : List Partition → Bytes → Bytes
all_q_partition [] first = first
all_q_partition (p ∷ ps) first =
    let rest = all_q_partition ps first in if bytes_eq p.queue (codes "all.q") then p.name else rest

unfoldable pub default_partition : List Partition → Bytes
unfolding all_q_partition
default_partition [] = []
default_partition (p ∷ ps) = all_q_partition (p ∷ ps) p.name

gpu_complex_of : List Complex → Bytes
unfolding equal_fold
gpu_complex_of [] = []
gpu_complex_of (c ∷ cs) =
    let rest = gpu_complex_of cs in if equal_fold c.type (codes "RSMAP") then c.name else rest

unfoldable pub with_pe_name : Options → Options
with_pe_name o = record {
  prefix = o.prefix;
  pe_name = if bytes_eq o.pe_name [] then default_pe_name else o.pe_name;
  queues = o.queues;
  created_queue = o.created_queue;
  force = o.force;
}

-- All the changes, and the partitions.
unfoldable pub plan_changes : Facts → Options → List Change × List Partition
unfolding pe_changes select_queues wire_queues find_pe
plan_changes f o =
    let want = reference_pe o.pe_name o.prefix in
    let starter = starter_path o.prefix in
    let (selected, targets) = select_queues f o starter in
    wire_queues f o starter (pe_changes o want (find_pe f.pes o.pe_name) ++ selected) targets

unfoldable pub make_plan : Facts → Options → InstallPlan
unfolding plan_changes default_partition gpu_complex_of with_pe_name
make_plan f o =
    let (changes, partitions) = plan_changes f (with_pe_name o) in
    record {
      changes = changes;
      pe = reference_pe (with_pe_name o).pe_name o.prefix;
      partitions = partitions;
      default_partition = default_partition partitions;
      gpu_complex = gpu_complex_of f.complexes;
    }
