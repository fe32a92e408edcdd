-- ===== src/Plan/Types.antt =====
-- internal/layout/schema.go (the nodes and tasks of an allocation) and the types of
-- internal/plan/place.go. Host names and device ids are only compared, so they are native texts.
use slurm_shim.Common.{ℕ, Bool, List, String}
use slurm_shim.Common.Int.{ℤ}
use slurm_shim.Text.Bytes.{Bytes}

-- layout.Node, the fields that placement reads.
pub record Node : Type 0 where
  pub host : String
  pub slots : ℕ
  pub gpus : List String
  pub host_slots : ℕ

-- layout.Tasks, the fields that placement reads.
pub record Tasks : Type 0 where
  pub cpus_per_task : ℕ
  pub per_node : List ℕ

-- layout.Layout, the fields that placement reads.
pub record Layout : Type 0 where
  pub nodes : List Node
  pub tasks : Tasks

-- What srun asks for. A flag that is only ever tested by `> 0` or `<= 0` is a number here, with 0
-- for every value that is not positive; `-n` and --ntasks-per-node are also tested by `== 0`, so
-- they keep their sign.
pub record StepRequest : Type 0 where
  pub nodes : ℕ
  pub ntasks : ℤ
  pub tasks_per_node : ℤ
  pub cpus_per_task : ℕ
  pub gpus_per_task : ℕ
  pub nodelist : List String
  pub exclude : List String
  pub auto_divide_gpus : Bool
  pub gpu_bind_explicit : Bool
  pub no_bind : Bool
  pub ordered : Bool
  pub avoid_master : Bool

pub record StepNode : Type 0 where
  pub host : String
  pub layout_index : ℕ
  pub slots : ℕ
  pub gpus : List String
  pub host_slots : ℕ

pub record PlacedRank : Type 0 where
  pub rank : ℕ
  pub step_node_index : ℕ
  pub local : ℕ
  pub cpuset : Bytes
  pub gpus : List String

-- The warnings and notices of a plan, each with the values that its text shows.
pub data Warning : Type 0 where
  fewer_tasks_than_nodes : ℤ → ℕ → Warning
  shared_devices : ℕ → ℕ → String → Warning
  whole_grant_visible : ℕ → String → ℕ → Warning

pub record StepPlan : Type 0 where
  pub nodes : List StepNode
  pub ranks : List PlacedRank
  pub ntasks : ℤ
  pub cpus_per_task : ℕ
  pub warnings : List Warning

-- The errors, each with the values that its text shows. The host of the first is one of the list,
-- whichever the iteration over a Go map meets first.
pub data PlaceError : Type 0 where
  not_in_allocation : List String → PlaceError
  nodelist_excluded : PlaceError
  all_excluded : PlaceError
  too_many_nodes : ℕ → ℕ → PlaceError
  too_many_tasks : ℤ → ℤ → PlaceError
  gpus_exceed_grant : ℕ → ℕ → String → PlaceError
  -- No error of the source: its panic, where AssignDevices slices the devices out of range.
  slice_panic : PlaceError
