-- ===== src/Submit/Geometry.antt =====
-- internal/submit/submit.go (ResolveGeometry to RuleFor), memory.go (NodesForList, UsableHosts) and
-- ParseSlotsRule of internal/config/config.go. The commands refuse negative and absurd counts before
-- they come here: a count is a natural number, and below 2^20 none of the products leaves an int.
pub mod Layout
use slurm_shim.Common.{
  ℕ, zero, suc, ◌+◌, ◌-◌, ◌*◌, ◌/◌, ◌%◌, ◌≤◌, ◌<◌, Bool, true, false, ◌&&◌, ◌||◌, not, List, [],
  ◌∷◌, Option, none, some, ◌==◌, ltb, leb, if◌then◌else◌, Result, ok, err, length,
}
use slurm_shim.Common.Int.{ℤ, pos, negsuc}
use slurm_shim.Text.Bytes.{Bytes, codes, bytes_eq}
use slurm_shim.Text.Split.{trim_space}
use slurm_shim.Text.Decimal.{itoa_ℕ, atoi}
use slurm_shim.Install.Selection.{contains}

-- Request, the fields of its geometry.
pub record Request : Type 0 where
  pub nodes : ℕ
  pub have_ntasks : Bool
  pub ntasks : ℕ
  pub have_per_node : Bool
  pub ntasks_per_node : ℕ
  pub cpus_per_task : ℕ

-- The switch of ResolveGeometry.
stated_ntasks : Request → ℕ
stated_ntasks r =
    if r.have_ntasks
    then r.ntasks
    else if ltb 0 r.nodes && r.have_per_node
    then r.nodes * r.ntasks_per_node
    else if ltb 0 r.nodes
    then r.nodes
    else if r.have_per_node
    then r.ntasks_per_node
    else 1

abbrev pub at_least_one : ℕ → ℕ
at_least_one n = if ltb n 1 then 1 else n

-- ResolveGeometry: the task count and the cpus per task.
unfoldable pub resolve_geometry : Request → ℕ × ℕ
unfolding stated_ntasks
resolve_geometry r = (at_least_one (stated_ntasks r), at_least_one r.cpus_per_task)

-- TasksOnNode
unfoldable pub tasks_on_node : Request → ℕ → ℕ
unfolding resolve_geometry
tasks_on_node r node_count =
    let count = at_least_one node_count in
    let per_node = ((resolve_geometry r).0 + count - 1) / count in
    if r.have_per_node && ltb 0 r.ntasks_per_node
    then r.ntasks_per_node
    else if ltb 0 per_node
    then per_node
    else 1

-- TasksPerNode
unfoldable pub tasks_per_node : Request → ℕ
unfolding tasks_on_node
tasks_per_node r = tasks_on_node r r.nodes

pub data SlotsError : Type 0 where
  not_an_integer : Bytes → SlotsError
  below_one : Bytes → SlotsError

fixed_slots : Bytes → Option ℤ → Result SlotsError (ℕ × Bool)
fixed_slots rule none = err (not_an_integer rule)
fixed_slots rule (some (negsuc n)) = err (below_one rule)
fixed_slots rule (some (pos zero)) = err (below_one rule)
fixed_slots rule (some (pos (suc n))) = ok (suc n, false)

rule_slots : Bytes → Result SlotsError (ℕ × Bool)
unfolding fixed_slots atoi
rule_slots rule =
    if bytes_eq rule [] || bytes_eq rule (codes "per-task")
    then ok (0, true)
    else fixed_slots rule (atoi rule)

-- ParseSlotsRule
unfoldable pub parse_slots_rule : Bytes → Result SlotsError (ℕ × Bool)
unfolding rule_slots trim_space
parse_slots_rule rule = rule_slots (trim_space rule)

slots_by : Request → Result SlotsError (ℕ × Bool) → Result SlotsError ℕ
unfolding resolve_geometry
slots_by r (err e) = err e
slots_by r (ok (n, true)) = ok ((resolve_geometry r).0 * (resolve_geometry r).1)
slots_by r (ok (n, false)) = ok n

-- Slots, for the slots rule of the partition.
unfoldable pub slots : Request → Bytes → Result SlotsError ℕ
unfolding slots_by parse_slots_rule
slots r rule = slots_by r (parse_slots_rule rule)

pub data SpreadWarning : Type 0 where
  pinned_slots : ℕ → SpreadWarning
  uneven_over_nodes : ℕ → ℕ → ℕ → SpreadWarning
  uneven_per_node : ℕ → ℕ → ℕ → SpreadWarning

-- The value is empty where no rule is emitted.
pub record AllocationRule : Type 0 where
  pub value : Bytes
  pub nodes : ℕ
  pub warn : Option SpreadWarning

abbrev pub no_rule : AllocationRule
no_rule = record { value = []; nodes = 0; warn = none }

-- RuleFor
unfoldable pub rule_for : ℕ → ℕ → ℕ → AllocationRule
unfolding itoa_ℕ
rule_for ntasks nodes slots =
    if not (slots % nodes == 0)
    then record { value = []; nodes = 0; warn = some (uneven_over_nodes ntasks nodes slots) }
    else if ltb (slots / nodes) 1
    then no_rule
    else if nodes == 1
    then record { value = codes "$pe_slots"; nodes = 1; warn = none }
    else record { value = itoa_ℕ (slots / nodes); nodes = nodes; warn = none }

-- The switch of ParSpec, on a partition that sizes by task.
per_task_spec : Request → ℕ → AllocationRule
unfolding rule_for resolve_geometry
per_task_spec r slots =
    if leb 1 r.nodes
    then rule_for (resolve_geometry r).0 r.nodes slots
    else if r.have_per_node && leb 1 r.ntasks_per_node
    then if not ((resolve_geometry r).0 % r.ntasks_per_node == 0)
      then record {
        value = [];
        nodes = 0;
        warn = some (uneven_per_node (resolve_geometry r).0 r.ntasks_per_node slots);
      }
      else rule_for (resolve_geometry r).0 ((resolve_geometry r).0 / r.ntasks_per_node) slots
    else no_rule

pinned_spec : Request → ℕ → AllocationRule
pinned_spec r slots =
    if leb 1 r.nodes || (r.have_per_node && leb 1 r.ntasks_per_node)
    then record { value = []; nodes = 0; warn = some (pinned_slots slots) }
    else no_rule

spec_by : Request → ℕ → Result SlotsError (ℕ × Bool) → AllocationRule
unfolding per_task_spec pinned_spec
spec_by r slots (err e) = pinned_spec r slots
spec_by r slots (ok (n, true)) = per_task_spec r slots
spec_by r slots (ok (n, false)) = pinned_spec r slots

-- ParSpec, for the slots rule of the partition.
unfoldable pub par_spec : Request → Bytes → ℕ → AllocationRule
unfolding spec_by parse_slots_rule
par_spec r rule slots = spec_by r slots (parse_slots_rule rule)

-- UsableHosts
unfoldable pub usable_hosts : List Bytes → List Bytes → List Bytes
unfolding contains
usable_hosts [] exclude = []
usable_hosts (h ∷ list) exclude =
    let rest = usable_hosts list exclude in if not (contains exclude h) then h ∷ rest else rest

pub data ListError : Type 0 where
  no_host_left : ListError
  fewer_than_list : ℕ → ℕ → ListError
  more_than_list : ℕ → ℕ → ListError

nodes_for_usable : ℕ → ℕ → Result ListError ℕ
nodes_for_usable nodes usable =
    if usable == 0
    then err no_host_left
    else if nodes == 0
    then ok usable
    else if ltb nodes usable
    then err (fewer_than_list nodes usable)
    else if ltb usable nodes
    then err (more_than_list nodes usable)
    else ok nodes

-- NodesForList
unfoldable pub nodes_for_list : ℕ → List Bytes → List Bytes → Result ListError ℕ
unfolding nodes_for_usable usable_hosts
nodes_for_list nodes [] exclude = ok nodes
nodes_for_list nodes (h ∷ list) exclude =
    nodes_for_usable nodes (length (usable_hosts (h ∷ list) exclude))
