-- ===== src/Plan/Place/Totality.antt =====
-- Place of internal/plan/place.go comes to a plan or an error.
use slurm_shim.Common.{ℕ, ◌*◌, ◌≤◌, List, some, ◌≡◌, ◌≢◌, refl, ap, inl, inr, Result, ok, err}
use slurm_shim.Common.Int.{ℤ, pos_part}
use slurm_shim.Text.Decimal.{max_int}
use slurm_shim.Plan.Types.{
  Layout, StepRequest, StepNode, PlacedRank, StepPlan, Warning, PlaceError, too_many_tasks,
  slice_panic,
}
use slurm_shim.Plan.Select.{select_nodes, capacities}
use slurm_shim.Plan.Select.Refusals.{select_nodes-slice_panic}
use slurm_shim.Plan.Spread.{drop_empty, total}
use slurm_shim.Plan.Spread.Level.{sum, IsSpread, spread_total}
use slurm_shim.Plan.Distribute.Blocks.{distribute-slice_panic}
use slurm_shim.Plan.Place.{
  tasks_for, threads_for, finish, place_counts, place_spread, place_on, place,
}
use slurm_shim.Plan.Place.BlockOrder.{kept_counts, All-small}

abbrev Selected : Type 0
Selected = Result PlaceError (List StepNode)

finish-slice_panic :
    (req : StepRequest) (kept : List StepNode) (n : ℤ) (cpt : ℕ) (warns : List Warning)
    (m : Result PlaceError (List PlacedRank × List Warning))
    → m ≢ err slice_panic
    → finish req kept n cpt warns m ≢ err slice_panic
unfolding finish
finish-slice_panic req kept n cpt warns (err x) fine e = fine (let h = e in cc)
finish-slice_panic req kept n cpt warns (ok r) fine e = cc

place_counts-slice_panic :
    (lay : Layout) (req : StepRequest) (nodes : List StepNode) (caps counts : List ℕ) (n : ℤ)
    → IsSpread (capacities lay nodes req) n counts
    → req.gpus_per_task * pos_part n ≤ max_int
    → place_counts lay req nodes caps n counts ≢ err slice_panic
unfolding place_counts
place_counts-slice_panic lay req nodes caps counts n spreads small =
    let (l, s, busy) = kept_counts lay req nodes counts n spreads in
    let few : req.gpus_per_task * sum (drop_empty nodes counts).1 ≤ max_int = rw s small in
    finish-slice_panic req _ n (threads_for lay req) _ _ (
      distribute-slice_panic (threads_for lay req) req.gpus_per_task req.auto_divide_gpus
        req.gpu_bind_explicit _ _ busy (All-small req.gpus_per_task _ few))

refused-slice_panic :
    (n t : ℤ) → ◌≢◌ {A = Result PlaceError StepPlan} (err (too_many_tasks n t)) (err slice_panic)
refused-slice_panic n t e = cc

place_on-answers :
    (lay : Layout) (req : StepRequest) (m : Selected)
    → m ≢ err slice_panic
    → ((nodes : List StepNode)
        → m ≡ ok nodes
        → req.gpus_per_task * pos_part (tasks_for req.ntasks (capacities lay nodes req)) ≤ max_int)
    → (r : Result PlaceError StepPlan) × (place_on lay req m ≡ some r) × (r ≢ err slice_panic)
unfolding place_on
place_on-answers lay req (err e) fine small = (err e, refl, λ h. fine (let g = h in cc))
place_on-answers lay req (ok nodes) fine small =
    let caps : List ℕ = capacities lay nodes req in
    let ntasks : ℤ = tasks_for req.ntasks caps in
    elim (spread_total caps ntasks) [
      | inl over ↦ (
        err (too_many_tasks ntasks (total caps)),
        ap (place_spread lay req nodes caps ntasks) over,
        refused-slice_panic ntasks (total caps),
      )
      | inr (counts, e, spreads) ↦ (
        place_counts lay req nodes caps ntasks counts,
        ap (place_spread lay req nodes caps ntasks) e,
        place_counts-slice_panic lay req nodes caps counts ntasks spreads (small nodes refl),
      )
    ]

-- Place comes to a plan or an error: its loops end, and it does not panic. For --gpus-per-task the
-- product with the tasks of the step has to be an `int`.
pub place_total :
    (lay : Layout) (req : StepRequest)
    → ((nodes : List StepNode)
        → select_nodes lay req ≡ ok nodes
        → req.gpus_per_task * pos_part (tasks_for req.ntasks (capacities lay nodes req)) ≤ max_int)
    → (r : Result PlaceError StepPlan) × (place lay req ≡ some r) × (r ≢ err slice_panic)
unfolding place
place_total lay req small =
    place_on-answers lay req (select_nodes lay req) (select_nodes-slice_panic lay req) small
