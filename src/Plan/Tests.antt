-- ===== src/Plan/Tests.antt =====
-- Runs of internal/plan on a small allocation, and the theorems applied to them.
use slurm_shim.Common.{
  ℕ, ◌*◌, ◌/◌, ◌<◌, true, false, List, [], ◌∷◌, map, Option, none, some, ◌≡◌, ◌≢◌, ◌⊎◌, ◌↔◌, refl,
  arith, Result, ok, err, length, All, String, take, eq_iff, ◌≤◌, ◌^◌, replicate,
}
use slurm_shim.Common.Int.{pos, negsuc, pos_part}
use slurm_shim.Text.Decimal.{max_int}
use slurm_shim.Plan.Types.{
  Node, Layout, StepRequest, StepNode, PlacedRank, StepPlan, fewer_tasks_than_nodes, PlaceError,
  not_in_allocation, gpus_exceed_grant, slice_panic,
}
use slurm_shim.Plan.Policy.{
  NodeAlloc, TaskGeometry, PolicyError, gpu, sum, no_gpus, gpu_geometry, node_geometry,
  apply_policy,
}
use slurm_shim.Plan.Policy.Counts.{Counts, apply_policy-Counts}
use slurm_shim.Plan.Policy.GpuGeometry.{IsGpuGeometry, gpu_geometry_complete}
use slurm_shim.Plan.Policy.NodeGeometry.{IsNodeGeometry, node_geometry-IsNodeGeometry}
use slurm_shim.Plan.Devices.{assign_devices}
use slurm_shim.Plan.Devices.Shares.{
  flatten, assign_devices_explicit, assign_devices_divided, assign_devices_shared,
}
use slurm_shim.Plan.Select.{contains, remove, select_nodes, capacities}
use slurm_shim.Plan.Select.Choice.{IsChoice, select_nodes-IsChoice, select_nodes_count}
use slurm_shim.Plan.Select.Unknown.{select_nodes_unknown}
use slurm_shim.Plan.Spread.{spread, count_positive, drop_empty}
use slurm_shim.Plan.Spread.Level
use slurm_shim.Plan.Spread.Level.{level, spread-level}
use slurm_shim.Plan.Distribute.{distribute}
use slurm_shim.Plan.Distribute.Blocks.{position}
use slurm_shim.Plan.Place.{place, tasks_for}
use slurm_shim.Plan.Place.BlockOrder.{IsBlockPlan, place-IsBlockPlan, place-gpus}
use slurm_shim.Plan.Place.Totality.{place_total}

abbrev lay : Layout
lay = record {
  nodes =
      record { host = "n1"; slots = 4; gpus = "0" ∷ "1" ∷ "2" ∷ []; host_slots = 4 }
      ∷ record { host = "n2"; slots = 2; gpus = "0" ∷ "1" ∷ []; host_slots = 8 }
      ∷ [];
  tasks = record { cpus_per_task = 0; per_node = 4 ∷ 2 ∷ [] };
}

abbrev plain : StepRequest
plain = record {
  nodes = 0;
  ntasks = pos 3;
  tasks_per_node = pos 0;
  cpus_per_task = 2;
  gpus_per_task = 1;
  nodelist = [];
  exclude = [];
  auto_divide_gpus = false;
  gpu_bind_explicit = false;
  no_bind = false;
  ordered = false;
  avoid_master = false;
}

abbrev default_plan : StepPlan
default_plan = record { nodes = []; ranks = []; ntasks = pos 0; cpus_per_task = 0; warnings = [] }

abbrev plan_of : Option (Result PlaceError StepPlan) → StepPlan
plan_of none = default_plan
plan_of (some (err e)) = default_plan
plan_of (some (ok p)) = p

-- The ranks go to the nodes in turn: two on n1, one on n2.
three_ranks :
    map position (plan_of (place lay plain)).ranks ≡ (0, 0, 0) ∷ (1, 0, 1) ∷ (2, 1, 0) ∷ []
unfolding place select_nodes capacities spread drop_empty distribute assign_devices count_positive
three_ranks = refl

-- A negative task count is neither refused nor replaced: the step has no node and no rank.
negative_ntasks :
    place lay (record plain { ntasks = negsuc 2 })
    ≡ some (
        ok (record {
          nodes = [];
          ranks = [];
          ntasks = negsuc 2;
          cpus_per_task = 2;
          warnings = fewer_tasks_than_nodes (negsuc 2) 2 ∷ [];
        }))
unfolding place select_nodes capacities spread drop_empty distribute assign_devices count_positive
negative_ntasks = refl

beyond_grant :
    place lay (record plain { gpus_per_task = 2 }) ≡ some (err (gpus_exceed_grant 2 3 "n1"))
unfolding place select_nodes capacities spread drop_empty distribute assign_devices count_positive
beyond_grant = refl

placed : place lay plain ≡ some (ok (plan_of (place lay plain)))
unfolding place select_nodes capacities spread drop_empty distribute assign_devices count_positive
placed = refl

-- Three tasks with one device each are an `int`, on whatever nodes.
small_request :
    (nodes : List StepNode)
    → select_nodes lay plain ≡ ok nodes
    → plain.gpus_per_task * pos_part (tasks_for plain.ntasks (capacities lay nodes plain)) ≤ max_int
unfolding tasks_for
small_request nodes e = omega arith

place_total_example :
    (r : Result PlaceError StepPlan) × (place lay plain ≡ some r) × (r ≢ err slice_panic)
place_total_example = place_total lay plain small_request

-- The product of devices and tasks wraps around to 0, so the grant is not found too small, and the
-- slice of the third rank has a negative start.
wrapped_grant :
    place lay (record plain { ntasks = pos 4; gpus_per_task = 2 ^ 62; nodelist = "n1" ∷ [] })
    ≡ some (err slice_panic)
unfolding place select_nodes capacities spread drop_empty distribute assign_devices count_positive
    contains remove
wrapped_grant = refl

place-IsBlockPlan_example : (counts : List ℕ) × IsBlockPlan (plan_of (place lay plain)) counts
place-IsBlockPlan_example = place-IsBlockPlan lay plain (plan_of (place lay plain)) placed

place-gpus_example : All (λ (k : PlacedRank). length k.gpus ≡ 1) (plan_of (place lay plain)).ranks
unfolding place select_nodes spread capacities distribute drop_empty
place-gpus_example =
    place-gpus lay plain (plan_of (place lay plain)) (omega arith) (omega arith) placed

abbrev nodes_of : Result PlaceError (List StepNode) → List StepNode
nodes_of (err e) = []
nodes_of (ok ns) = ns

abbrev listed : StepRequest
listed = record plain { nodelist = "n2" ∷ "n1" ∷ []; exclude = "n1" ∷ [] }

chosen : select_nodes lay listed ≡ ok (nodes_of (select_nodes lay listed))
unfolding select_nodes contains remove
chosen = refl

select_nodes-IsChoice_example : All (IsChoice lay listed) (nodes_of (select_nodes lay listed))
select_nodes-IsChoice_example =
    select_nodes-IsChoice lay listed (nodes_of (select_nodes lay listed)) chosen

abbrev two_wanted : StepRequest
two_wanted = record plain { nodes = 2 }

two_chosen : select_nodes lay two_wanted ≡ ok (nodes_of (select_nodes lay two_wanted))
unfolding select_nodes contains remove
two_chosen = refl

select_nodes_count_example : length (nodes_of (select_nodes lay two_wanted)) ≡ 2
select_nodes_count_example =
    select_nodes_count lay two_wanted (nodes_of (select_nodes lay two_wanted)) two_chosen refl
      (omega arith)

abbrev stray : StepRequest
stray = record plain { nodelist = "n1" ∷ "n9" ∷ [] }

stray_on_list : contains stray.nodelist "n9" ≡ true
unfolding contains
stray_on_list = refl

not_there : All (λ (n : Node). n.host ≢ "n9") lay.nodes
not_there = (ground (arith, eq_iff "n1" "n9"), (ground (arith, eq_iff "n2" "n9"), tt))

select_nodes_unknown_example :
    (left : List String) × (select_nodes lay stray ≡ err (not_in_allocation left))
    × (contains left "n9" ≡ true)
select_nodes_unknown_example = select_nodes_unknown lay stray "n9" stray_on_list not_there

spread-level_example :
    (m p : ℕ) × (spread (2 ∷ 1 ∷ 4 ∷ []) (pos 5) ≡ some (ok (level m p (2 ∷ 1 ∷ 4 ∷ []))))
    × (Level.sum (level m p (2 ∷ 1 ∷ 4 ∷ [])) ≡ 5)
spread-level_example = spread-level (2 ∷ 1 ∷ 4 ∷ []) 5 (omega arith) (omega arith)

abbrev four : List String
four = "0" ∷ "1" ∷ "2" ∷ "3" ∷ "4" ∷ []

assign_devices_explicit_example :
    (sets : List (List String)) × (assign_devices four 2 2 false ≡ some (sets, false))
    × (flatten sets ≡ take (2 * 2) four)
    × (length sets ≡ 2)
    × All (λ (d : List String). length d ≡ 2) sets
assign_devices_explicit_example =
    assign_devices_explicit four 2 2 false (omega arith) (omega arith) (omega arith) (omega arith)

assign_devices_divided_example :
    (sets : List (List String)) × (assign_devices four 2 0 true ≡ some (sets, false))
    × (flatten sets ≡ take (2 * (length four / 2)) four)
    × (length sets ≡ 2)
    × All (λ (d : List String). length d ≡ length four / 2) sets
assign_devices_divided_example = assign_devices_divided four 2 (omega arith) (omega arith)

assign_devices_shared_example : (assign_devices four 9 0 true ≡ some (replicate 9 four, true)) ↔ (
    (replicate 9 four ≡ replicate 9 four)
    × (◌≡◌ {A = ℕ} 0 0)
    × (true ≡ true)
    × (0 < length four)
    × (length four < 9))
assign_devices_shared_example = assign_devices_shared four 9 0 true (replicate 9 four) (omega arith)

abbrev allocs : List NodeAlloc
allocs =
    record { slots = 8; gpus = 2 }
    ∷ record { slots = 4; gpus = 0 }
    ∷ record { slots = 6; gpus = 2 }
    ∷ []

abbrev geometry_of : Result PolicyError TaskGeometry → TaskGeometry
geometry_of (ok g) = g
geometry_of (err e) = record {
  per_node = [];
  ntasks = 0;
  cpus_per_task = 0;
  cpus_per_task_set = false;
  warnings = [];
}

gpu_geometry_of : apply_policy gpu allocs ≡ ok (geometry_of (apply_policy gpu allocs))
unfolding apply_policy
gpu_geometry_of = refl

apply_policy-Counts_example : Counts allocs (geometry_of (apply_policy gpu allocs))
apply_policy-Counts_example =
    apply_policy-Counts gpu allocs {g = geometry_of (apply_policy gpu allocs)} gpu_geometry_of

gpu_geometry_complete_example :
    ((sum (map (λ (n : NodeAlloc). n.gpus) allocs) ≡ 0) × (gpu_geometry allocs ≡ err no_gpus))
    ⊎ ((g : TaskGeometry) × (gpu_geometry allocs ≡ ok g) × IsGpuGeometry allocs g)
gpu_geometry_complete_example = gpu_geometry_complete allocs

node_geometry-IsNodeGeometry_example :
    IsNodeGeometry
      (record { slots = 8; gpus = 2 } ∷ [])
      (node_geometry (record { slots = 8; gpus = 2 }) [])
node_geometry-IsNodeGeometry_example =
    node_geometry-IsNodeGeometry (record { slots = 8; gpus = 2 }) []
