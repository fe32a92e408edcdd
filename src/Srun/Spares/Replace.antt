-- ===== src/Srun/Spares/Replace.antt =====
-- internal/cli/srun/elastic.go: canReplace, hostFault, placeOnSpare, and the loop of replace that
-- relaunches a lost node's tasks on one spare after the other. What the cluster answers is an
-- environment: whether srun stops the step by a round, and what a relaunch on a host comes to.
pub mod Takeover
use slurm_shim.Common.{
  ℕ, zero, suc, ◌+◌, Bool, true, false, ◌&&◌, ◌||◌, not, List, [], ◌∷◌, String, str_eq, ◌==◌,
  if◌then◌else◌, Result, ok, err, length, Option, none, some, ltb,
}
use slurm_shim.Plan.Types.{StepNode, PlacedRank, StepPlan}
use slurm_shim.Plan.Devices.{assign_devices}
use slurm_shim.Srun.Spares.{LayoutNode, JobLayout, SpareError, Taken, take_spare}

unfoldable pub set_step_node : List StepNode → ℕ → StepNode → List StepNode
set_step_node [] i n = []
set_step_node (m ∷ ns) zero n = n ∷ ns
set_step_node (m ∷ ns) (suc i) n = m ∷ set_step_node ns i n

unfoldable pub local_ranks : ℕ → List PlacedRank → ℕ
local_ranks ni [] = 0
local_ranks ni (r ∷ rs) = (if r.step_node_index == ni then 1 else 0) + local_ranks ni rs

abbrev first_set : List (List String) → List String
first_set [] = []
first_set (ds ∷ per_rank) = ds

abbrev pub other_sets : List (List String) → List (List String)
other_sets [] = []
other_sets (ds ∷ per_rank) = per_rank

-- The loop that gives the node's ranks their devices, one set each.
unfoldable pub give_devices : ℕ → List (List String) → List PlacedRank → List PlacedRank
give_devices ni per_rank [] = []
give_devices ni per_rank (r ∷ rs) =
    let given = give_devices ni (other_sets per_rank) rs in
    let skipped = give_devices ni per_rank rs in
    if r.step_node_index == ni then record r { gpus = first_set per_rank } ∷ given else r ∷ skipped

-- The plan with step node `ni` on the spare and the sets given to its ranks.
unfoldable pub on_spare : ℕ → LayoutNode → List (List String) → StepPlan → StepPlan
unfolding set_step_node give_devices
on_spare ni spare per_rank plan = record plan {
  nodes = set_step_node plan.nodes ni (record {
    host = spare.host;
    layout_index = spare.index;
    slots = spare.slots;
    gpus = spare.gpus;
    host_slots = spare.host_slots;
  });
  ranks = give_devices ni per_rank plan.ranks;
}

unfoldable pub place_with :
    ℕ → LayoutNode → StepPlan → Option (List (List String) × Bool) → Option StepPlan
unfolding on_spare
place_with ni spare plan none = none
place_with ni spare plan (some (per_rank, shared)) = some (on_spare ni spare per_rank plan)

-- placeOnSpare; `none` where AssignDevices panics.
unfoldable pub place_on_spare : ℕ → Bool → ℕ → LayoutNode → StepPlan → Option StepPlan
unfolding place_with local_ranks assign_devices
place_on_spare gpus_per_task auto_divide ni spare plan =
    place_with ni spare plan
      (assign_devices spare.gpus (local_ranks ni plan.ranks) gpus_per_task auto_divide)

-- How a relaunch on a host ends: launch.ErrHostUnusable, or an error that every host would give.
pub data Relaunched : Type 0 where
  started : Relaunched
  host_unusable : Relaunched
  other_failure : Relaunched

pub record Cluster : Type 0 where
  pub stopping : ℕ → Bool
  pub relaunch : String → Relaunched
  pub now : ℕ → ℕ

-- The parts of the supervisor that a replacement reads or writes.
pub record Supervisor : Type 0 where
  pub layout : JobLayout
  pub plan : StepPlan
  pub soft_swapped : Bool
  pub step : ℕ
  pub gpus_per_task : ℕ
  pub auto_divide : Bool

-- How replace ends; `out_of_rounds` is the model's, for a loop that is cut off, and `slice_panics`
-- stands for the panic of AssignDevices.
pub data Outcome : Type 0 where
  taken_over : LayoutNode → ℕ → ℕ → Outcome
  refused : SpareError → Outcome
  relaunch_failed : Outcome
  slice_panics : Outcome
  step_stopping : Outcome
  already_swapped : Outcome
  out_of_rounds : Outcome

-- The outcome, the hosts to drain in their order, and the supervisor behind.
pub record Attempt : Type 0 where
  pub outcome : Outcome
  pub drains : List String
  pub supervisor : Supervisor

abbrev pub ended : Outcome → Supervisor → Attempt
ended o s = record { outcome = o; drains = []; supervisor = s }

abbrev pub drained : Bool → String → Attempt → Attempt
drained false host a = a
drained true host a = record a { drains = host ∷ a.drains }

abbrev pub after_relaunch :
    Relaunched → Taken → Supervisor → (String → Supervisor → Attempt) → Attempt
after_relaunch started t s next = ended (taken_over t.spare t.used t.total) s
after_relaunch host_unusable t s next = next t.spare.host s
after_relaunch other_failure t s next = ended relaunch_failed s

-- The layout is the written one, and the step's node moves to the spare.
unfoldable pub moved : Taken → StepPlan → Supervisor → Supervisor
moved t plan s = record s { layout = t.layout; plan = plan }

abbrev pub placed : ℕ → Taken → Supervisor → Option StepPlan
placed ni t s = place_on_spare s.gpus_per_task s.auto_divide ni t.spare s.plan

-- A relaunch, once the step's node is placed on the spare.
unfoldable pub relaunch_on :
    Cluster → Taken → Supervisor → (String → Supervisor → Attempt) → Option StepPlan → Attempt
unfolding moved
relaunch_on c t s next none = ended slice_panics s
relaunch_on c t s next (some plan) =
    after_relaunch (c.relaunch t.spare.host) t (moved t plan s) next

unfoldable pub after_take :
    Cluster
    → ℕ
    → (String → Supervisor → Attempt)
    → Bool
    → String
    → Result SpareError Taken
    → Supervisor
    → Attempt
unfolding relaunch_on place_on_spare
after_take c ni next down lost (err e) s = ended (refused e) s
after_take c ni next down lost (ok t) s = drained down lost (relaunch_on c t s next (placed ni t s))

unfoldable pub replace_loop : ℕ → Cluster → ℕ → ℕ → Bool → String → Supervisor → Attempt
unfolding after_take take_spare
replace_loop zero c ni round down lost s = ended out_of_rounds s
replace_loop (suc fuel) c ni round down lost s =
    if c.stopping round
    then ended step_stopping s
    else after_take c ni (replace_loop fuel c ni (suc round) true) down lost
        (take_spare s.step (c.now round) lost s.layout) s

-- replace: a stepper that ended early, on a host that is not down, gets one spare per step.
unfoldable pub replace : ℕ → Cluster → ℕ → Bool → String → Supervisor → Attempt
unfolding replace_loop
replace fuel c ni true lost s = replace_loop fuel c ni 0 true lost s
replace fuel c ni false lost s =
    if s.soft_swapped
    then ended already_swapped s
    else replace_loop fuel c ni 0 false lost (record s { soft_swapped = true })

-- stepNodeIndex
unfoldable pub step_node_index : List StepNode → String → ℕ → Option ℕ
step_node_index [] host i = none
step_node_index (n ∷ ns) host i =
    let rest = step_node_index ns host (suc i) in if str_eq n.host host then some i else rest

-- s.plan.Nodes[ni].LayoutIndex != 0
unfoldable pub is_remote : List StepNode → ℕ → Bool
is_remote [] ni = false
is_remote (n ∷ ns) zero = not (n.layout_index == 0)
is_remote (n ∷ ns) (suc ni) = is_remote ns ni

abbrev remote_at : List StepNode → Option ℕ → Bool
unfolding is_remote
remote_at ns none = false
remote_at ns (some ni) = is_remote ns ni

-- canReplace
unfoldable pub can_replace : Bool → Bool → ℕ → String → StepPlan → Bool
unfolding step_node_index remote_at
can_replace elastic terminating reported host plan =
    if not elastic || terminating || ltb 0 reported
    then false
    else remote_at plan.nodes (step_node_index plan.nodes host 0)

-- hostFault
unfoldable pub host_fault : Bool → ℕ → Relaunched → StepPlan → Bool
unfolding is_remote
host_fault elastic ni failure plan = elim failure [
  | host_unusable ↦ elastic && is_remote plan.nodes ni
  | _ ↦ false
]

abbrev node_host : List StepNode → ℕ → String
node_host [] ni = ""
node_host (n ∷ ns) zero = n.host
node_host (n ∷ ns) (suc ni) = node_host ns ni

abbrev pub after_start :
    Relaunched → Taken → Supervisor → (Relaunched → Supervisor → Attempt) → Attempt
after_start started t s next = ended (taken_over t.spare t.used t.total) s
after_start host_unusable t s next = next host_unusable s
after_start other_failure t s next = next other_failure s

unfoldable pub start_on :
    Cluster → Taken → Supervisor → (Relaunched → Supervisor → Attempt) → Option StepPlan → Attempt
unfolding moved
start_on c t s next none = ended slice_panics s
start_on c t s next (some plan) = after_start (c.relaunch t.spare.host) t (moved t plan s) next

unfoldable pub after_start_take :
    Cluster
    → ℕ
    → (Relaunched → Supervisor → Attempt)
    → String
    → Result SpareError Taken
    → Supervisor
    → Attempt
unfolding start_on place_on_spare
after_start_take c ni next host (err e) s = ended (refused e) s
after_start_take c ni next host (ok t) s = drained true host (start_on c t s next (placed ni t s))

-- startOnSpare, for a step node whose start failed.
unfoldable pub start_on_spare : ℕ → Cluster → Bool → ℕ → ℕ → Relaunched → Supervisor → Attempt
unfolding host_fault after_start_take take_spare
start_on_spare zero c elastic ni round failure s = ended out_of_rounds s
start_on_spare (suc fuel) c elastic ni round failure s =
    let host = node_host s.plan.nodes ni in
    if host_fault elastic ni failure s.plan
    then after_start_take c ni (start_on_spare fuel c elastic ni (suc round)) host
        (take_spare s.step (c.now round) host s.layout) s
    else ended relaunch_failed s
