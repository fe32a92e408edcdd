-- ===== src/Plan/Place.antt =====
-- internal/plan/place.go: Place, which resolves an srun request against the allocation.
pub mod BlockOrder
pub mod Totality
use slurm_shim.Common.{
  ℕ, zero, suc, Bool, true, false, List, [], ◌∷◌, ◌++◌, map, Option, none, some, ltb, ◌==◌,
  if◌then◌else◌, Result, ok, err,
}
use slurm_shim.Common.Int.{ℤ, pos, negsuc}
use slurm_shim.Plan.Types.{
  Layout, StepRequest, StepNode, PlacedRank, StepPlan, Warning, fewer_tasks_than_nodes, PlaceError,
}
use slurm_shim.Plan.Select.{select_nodes, capacities}
use slurm_shim.Plan.Spread.{total, spread, count_positive, drop_empty}
use slurm_shim.Plan.Distribute.{distribute}

-- A task count of 0 stands for the sum of the capacities.
unfoldable pub tasks_for : ℤ → List ℕ → ℤ
tasks_for (pos zero) caps = total caps
tasks_for n caps = n

threads_for : Layout → StepRequest → ℕ
threads_for lay req =
    let cpt = if req.cpus_per_task == 0 then lay.tasks.cpus_per_task else req.cpus_per_task in
    if cpt == 0 then 1 else cpt

-- ntasks < usable, on signed integers.
below : ℤ → ℕ → Bool
below (pos n) m = ltb n m
below (negsuc n) m = true

unbind : Bool → List PlacedRank → List PlacedRank
unbind true ranks = map (λ (r : PlacedRank). record r { cpuset = [] }) ranks
unbind false ranks = ranks

-- The plan made of what `distribute` gives.
finish :
    StepRequest
    → List StepNode
    → ℤ
    → ℕ
    → List Warning
    → Result PlaceError (List PlacedRank × List Warning)
    → Result PlaceError StepPlan
unfolding unbind
finish req kept ntasks cpt warns (err e) = err e
finish req kept ntasks cpt warns (ok (ranks, gpu_warns)) = ok (record {
  nodes = kept;
  ranks = unbind req.no_bind ranks;
  ntasks = ntasks;
  cpus_per_task = cpt;
  warnings = warns ++ gpu_warns;
})

-- The part of Place behind `spread`.
place_counts :
    Layout → StepRequest → List StepNode → List ℕ → ℤ → List ℕ → Result PlaceError StepPlan
unfolding threads_for below finish
place_counts lay req nodes caps ntasks counts =
    let cpt = threads_for lay req in
    let usable = count_positive caps in
    let warns = if below ntasks usable then fewer_tasks_than_nodes ntasks usable ∷ [] else [] in
    let (kept, kept_counts) = drop_empty nodes counts in
    finish req kept ntasks cpt warns
      (distribute kept kept_counts cpt req.gpus_per_task req.auto_divide_gpus req.gpu_bind_explicit)

place_spread :
    Layout
    → StepRequest
    → List StepNode
    → List ℕ
    → ℤ
    → Option (Result PlaceError (List ℕ))
    → Option (Result PlaceError StepPlan)
unfolding place_counts
place_spread lay req nodes caps ntasks none = none
place_spread lay req nodes caps ntasks (some (err e)) = some (err e)
place_spread lay req nodes caps ntasks (some (ok counts)) =
    some (place_counts lay req nodes caps ntasks counts)

place_on :
    Layout → StepRequest → Result PlaceError (List StepNode) → Option (Result PlaceError StepPlan)
unfolding tasks_for place_spread
place_on lay req (err e) = some (err e)
place_on lay req (ok nodes) =
    let caps = capacities lay nodes req in
    let ntasks = tasks_for req.ntasks caps in
    place_spread lay req nodes caps ntasks (spread caps ntasks)

-- Place; `none` if the loop of `spread` were not to end.
unfoldable pub place : Layout → StepRequest → Option (Result PlaceError StepPlan)
unfolding place_on
place lay req = place_on lay req (select_nodes lay req)
