-- ===== src/Install/Types.antt =====
-- internal/install/types.go, and the types of internal/gedata/admin.go that the installer reads. The
-- field Reason of a change, a text for the administrator, is left out.
use slurm_shim.Common.{Bool, List, [], ◌∷◌, Option, none, some, if◌then◌else◌}
use slurm_shim.Common.Int.{ℤ}
use slurm_shim.Text.Bytes.{Bytes, bytes_eq}

-- gedata.PE
pub record Pe : Type 0 where
  pub name : Bytes
  pub slots : ℤ
  pub start_proc_args : Bytes
  pub stop_proc_args : Bytes
  pub allocation_rule : Bytes
  pub control_slaves : Bool
  pub job_is_first_task : Bool
  pub master_forks_slaves : Bool
  pub daemon_forks_slaves : Bool

-- gedata.Queue, the fields that the plan reads.
pub record Queue : Type 0 where
  pub name : Bytes
  pub pe_list : List Bytes
  pub starter_method : Bytes
  pub pe_list_overrides : List Bytes
  pub starter_overrides : List Bytes

-- gedata.Complex, the fields that the plan reads.
pub record Complex : Type 0 where
  pub name : Bytes
  pub type : Bytes
  pub requestable : Bytes

-- Facts, without the execution hosts, which the plan does not read.
pub record Facts : Type 0 where
  pub queues : List Queue
  pub pes : List Pe
  pub complexes : List Complex

pub record Options : Type 0 where
  pub prefix : Bytes
  pub pe_name : Bytes
  pub queues : List Bytes
  pub created_queue : Bytes
  pub force : Bool

-- A ChangeKind is a string; `other` is one that has no name.
pub data ChangeKind : Type 0 where
  add_pe : ChangeKind
  set_pe_attr : ChangeKind
  add_to_pe_list : ChangeKind
  set_starter : ChangeKind
  add_complex : ChangeKind
  add_queue : ChangeKind
  remove_from_pe_list : ChangeKind
  delete_queue : ChangeKind
  delete_pe : ChangeKind
  delete_complex : ChangeKind
  refused : ChangeKind
  unchanged : ChangeKind
  other : Bytes → ChangeKind

-- The parallel environment that only an add-pe change carries is `none` in the others.
pub record Change : Type 0 where
  pub kind : ChangeKind
  pub object : Bytes
  pub attr : Bytes
  pub old : Bytes
  pub new : Bytes
  pub pe : Option Pe

pub record Partition : Type 0 where
  pub name : Bytes
  pub queue : Bytes
  pub request : Bytes

-- The type Plan, without the warnings, to which MakePlan adds none.
pub record InstallPlan : Type 0 where
  pub changes : List Change
  pub pe : Pe
  pub partitions : List Partition
  pub default_partition : Bytes
  pub gpu_complex : Bytes

unfoldable pub find_queue : List Queue → Bytes → Option Queue
find_queue [] name = none
find_queue (q ∷ qs) name =
    let rest = find_queue qs name in if bytes_eq q.name name then some q else rest

unfoldable pub find_pe : List Pe → Bytes → Option Pe
find_pe [] name = none
find_pe (p ∷ ps) name = let rest = find_pe ps name in if bytes_eq p.name name then some p else rest

unfoldable pub find_complex : List Complex → Bytes → Option Complex
find_complex [] name = none
find_complex (c ∷ cs) name =
    let rest = find_complex cs name in if bytes_eq c.name name then some c else rest
