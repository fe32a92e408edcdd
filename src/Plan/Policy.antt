-- ===== src/Plan/Policy.antt =====
-- internal/plan/taskpolicy.go: the policies and their geometries. Slots and device counts are
-- never negative: they come from PE_HOSTFILE, which refuses such a line, and from list lengths.
pub mod Counts
pub mod GpuGeometry
pub mod NodeGeometry
use slurm_shim.Common.{
  ℕ, zero, suc, ◌+◌, ◌/◌, Bool, true, false, ◌&&◌, not, List, [], ◌∷◌, ◌++◌, map, Option, none,
  some, ◌==◌, ltb, if◌then◌else◌, Result, ok, err, length, String,
}

-- A policy name that is none of the three is kept, since the error names it.
pub data Policy : Type 0 where
  slot node gpu : Policy
  other : String → Policy

pub record NodeAlloc : Type 0 where
  pub slots : ℕ
  pub gpus : ℕ

pub data PolicyWarning : Type 0 where
  heterogeneous_slots : ℕ → PolicyWarning
  heterogeneous_slots_per_gpu : ℕ → PolicyWarning

pub record TaskGeometry : Type 0 where
  pub per_node : List ℕ
  pub ntasks : ℕ
  pub cpus_per_task : ℕ
  pub cpus_per_task_set : Bool
  pub warnings : List PolicyWarning

pub data PolicyError : Type 0 where
  no_nodes no_gpus : PolicyError
  unknown_policy : String → PolicyError

abbrev pub sum : List ℕ → ℕ
sum [] = 0
sum (x ∷ xs) = x + sum xs

-- The loop adds the counts from left to right.
pub sum_from : ℕ → List ℕ → ℕ
sum_from ntasks [] = ntasks
sum_from ntasks (count ∷ counts) = sum_from (ntasks + count) counts

unfoldable pub slot_geometry : List NodeAlloc → TaskGeometry
unfolding sum_from
slot_geometry nodes = record {
  per_node = map (λ (n : NodeAlloc). n.slots) nodes;
  ntasks = sum_from 0 (map (λ (n : NodeAlloc). n.slots) nodes);
  cpus_per_task = 0;
  cpus_per_task_set = false;
  warnings = [];
}

-- The loop of nodeGeometry: whether all slots equal `first`, and the least of them.
node_loop : ℕ → List NodeAlloc → Bool → ℕ → Bool × ℕ
node_loop first [] uniform least = (uniform, least)
node_loop first (n ∷ ns) uniform least =
    node_loop first ns (if n.slots == first then uniform else false)
      (if ltb n.slots least then n.slots else least)

unfoldable pub node_geometry : NodeAlloc → List NodeAlloc → TaskGeometry
unfolding node_loop
node_geometry n ns =
    let (uniform, least) = node_loop n.slots (n ∷ ns) true n.slots in
    record {
      per_node = map (λ _. 1) (n ∷ ns);
      ntasks = length (n ∷ ns);
      cpus_per_task = least;
      cpus_per_task_set = true;
      warnings = if uniform then [] else heterogeneous_slots least ∷ [];
    }

-- The first loop of gpuGeometry: the least slots per device so far, `none` for -1.
gpu_least : List NodeAlloc → Option ℕ → Option ℕ
gpu_least [] least = least
gpu_least (n ∷ ns) least = gpu_least ns (
    if n.gpus == 0 then least else elim least [
      | none ↦ some (n.slots / n.gpus)
      | some m ↦ if ltb (n.slots / n.gpus) m then some (n.slots / n.gpus) else some m
    ])

-- Its second loop: whether every node with devices has the first one's slots per device.
gpu_uniform : List NodeAlloc → Option ℕ → Bool → Bool
gpu_uniform [] first uniform = uniform
gpu_uniform (n ∷ ns) first uniform =
    gpu_uniform ns
      (if n.gpus == 0
        then first
        else elim first [ none ↦ some (n.slots / n.gpus) | some m ↦ some m ])
      (if n.gpus == 0 then uniform else elim first [
        | none ↦ uniform
        | some m ↦ if n.slots / n.gpus == m then uniform else false
      ])

-- A job with a device has a least ratio, so the 0 for -1 is never read.
abbrev least_or_zero : Option ℕ → ℕ
least_or_zero none = 0
least_or_zero (some m) = m

unfoldable pub gpu_geometry : List NodeAlloc → Result PolicyError TaskGeometry
unfolding sum_from gpu_least gpu_uniform
gpu_geometry nodes =
    let counts = map (λ (n : NodeAlloc). n.gpus) nodes in
    let least = least_or_zero (gpu_least nodes none) in
    if sum_from 0 counts == 0
    then err no_gpus
    else ok (record {
      per_node = counts;
      ntasks = sum_from 0 counts;
      cpus_per_task = least;
      cpus_per_task_set = true;
      warnings = if gpu_uniform nodes none true then [] else heterogeneous_slots_per_gpu least ∷ [];
    })

unfoldable pub apply_policy : Policy → List NodeAlloc → Result PolicyError TaskGeometry
unfolding slot_geometry node_geometry gpu_geometry
apply_policy p [] = err no_nodes
apply_policy slot (n ∷ ns) = ok (slot_geometry (n ∷ ns))
apply_policy node (n ∷ ns) = ok (node_geometry n ns)
apply_policy gpu (n ∷ ns) = gpu_geometry (n ∷ ns)
apply_policy (other name) (n ∷ ns) = err (unknown_policy name)
