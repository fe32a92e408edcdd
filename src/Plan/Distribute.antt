-- ===== src/Plan/Distribute.antt =====
-- internal/plan/place.go: distribute, which numbers the ranks node by node.
pub mod Blocks
use slurm_shim.Common.{
  ℕ, zero, suc, ◌+◌, ◌-◌, ◌*◌, Bool, true, false, ◌&&◌, not, List, [], ◌∷◌, ◌++◌, String, ltb, leb,
  if◌then◌else◌, Result, ok, err, length, get_or, ◌==◌, Option, none, some,
}
use slurm_shim.Text.Bytes.{Bytes}
use slurm_shim.Text.Decimal.{itoa}
use slurm_shim.Text.Int64.{to_int, int_lt}
use slurm_shim.Common.Int.{pos}
use slurm_shim.Plan.Types.{
  StepNode, PlacedRank, Warning, shared_devices, whole_grant_visible, PlaceError, gpus_exceed_grant,
  slice_panic,
}
use slurm_shim.Plan.Devices.{assign_devices}

-- fmt.Sprintf("%d-%d", local*cpt, (local+1)*cpt-1), for a positive `cpt`.
unfoldable pub cpuset_of : ℕ → ℕ → Bytes
unfolding itoa to_int
cpuset_of local cpt = itoa (to_int (local * cpt)) ++ (b'-' ∷ itoa (to_int ((local + 1) * cpt - 1)))

-- The loop over the local ranks of node `ni`: `n` of them are left. AssignDevices gives a set for
-- each of them, so the default of the lookup is not read.
place_locals : ℕ → ℕ → ℕ → ℕ → ℕ → List (List String) → List PlacedRank
place_locals zero rank ni local cpt per_rank = []
place_locals (suc n) rank ni local cpt per_rank =
    record {
      rank = rank;
      step_node_index = ni;
      local = local;
      cpuset = cpuset_of local cpt;
      gpus = get_or per_rank local [];
    }
    ∷ place_locals n (rank + 1) ni (local + 1) cpt per_rank

-- The two advisories of a node; only the first one of a step is kept.
node_warnings : StepNode → ℕ → ℕ → Bool → Bool → Bool → List Warning → List Warning
node_warnings node nlocal gpus_per_task auto_divide explicit shared [] =
    if shared
    then shared_devices (length node.gpus) nlocal node.host ∷ []
    else if not auto_divide
        && not explicit
        && (gpus_per_task == 0)
        && ltb 1 nlocal
        && leb nlocal (length node.gpus)
    then whole_grant_visible nlocal node.host (length node.gpus) ∷ []
    else []
node_warnings node nlocal gpus_per_task auto_divide explicit shared (w ∷ ws) = w ∷ ws

append_ranks :
    List PlacedRank
    → Result PlaceError (List PlacedRank × List Warning)
    → Result PlaceError (List PlacedRank × List Warning)
append_ranks placed (err e) = err e
append_ranks placed (ok (ranks, ws)) = ok (placed ++ ranks, ws)

-- What a node adds to the ranks behind it, once AssignDevices has answered.
place_node :
    Option (List (List String) × Bool)
    → ℕ
    → ℕ
    → ℕ
    → ℕ
    → Result PlaceError (List PlacedRank × List Warning)
    → Result PlaceError (List PlacedRank × List Warning)
unfolding place_locals append_ranks
place_node none nlocal rank ni cpt rest = err slice_panic
place_node (some (per_rank, shared)) nlocal rank ni cpt rest =
    append_ranks (place_locals nlocal rank ni 0 cpt per_rank) rest

is_shared : Option (List (List String) × Bool) → Bool
is_shared none = false
is_shared (some (per_rank, shared)) = shared

-- The loop over the nodes, from node `ni` and rank `rank` on.
distribute_from :
    ℕ
    → ℕ
    → ℕ
    → ℕ
    → Bool
    → Bool
    → List Warning
    → List StepNode
    → List ℕ
    → Result PlaceError (List PlacedRank × List Warning)
unfolding node_warnings place_node is_shared assign_devices to_int
distribute_from ni rank cpt gpus_per_task auto explicit warns [] counts = ok ([], warns)
distribute_from ni rank cpt gpus_per_task auto explicit warns (n ∷ nodes) [] = ok ([], warns)
distribute_from ni rank cpt gpus_per_task auto explicit warns (n ∷ nodes) (nlocal ∷ counts) =
    let assigned = assign_devices n.gpus nlocal gpus_per_task auto in
    let rest =
      distribute_from (ni + 1) (rank + nlocal) cpt gpus_per_task auto explicit
        (node_warnings n nlocal gpus_per_task auto explicit (is_shared assigned) warns) nodes
        counts in
    if ltb 0 gpus_per_task && int_lt (pos (length n.gpus)) (to_int (gpus_per_task * nlocal))
    then err (gpus_exceed_grant gpus_per_task (length n.gpus) n.host)
    else place_node assigned nlocal rank ni cpt rest

unfoldable pub distribute :
    List StepNode
    → List ℕ
    → ℕ
    → ℕ
    → Bool
    → Bool
    → Result PlaceError (List PlacedRank × List Warning)
unfolding distribute_from
distribute nodes counts cpt gpus_per_task auto explicit =
    distribute_from 0 0 cpt gpus_per_task auto explicit [] nodes counts
