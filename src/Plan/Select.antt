-- ===== src/Plan/Select.antt =====
-- internal/plan/place.go: selectNodes, inListOrder and capacities. A Go set of host names is a list
-- of names; deleting a name removes all of its entries.
pub mod Choice
pub mod Unknown
pub mod Refusals
use slurm_shim.Common.{
  ℕ, zero, suc, ◌+◌, Bool, true, false, ◌&&◌, not, List, [], ◌∷◌, Option, none, some, String,
  str_eq, ◌==◌, ltb, if◌then◌else◌, Result, ok, err, length, take, get_or,
}
use slurm_shim.Common.Int.{ℤ, pos, negsuc, pos_part}
use slurm_shim.Plan.Types.{
  Node, Layout, StepRequest, StepNode, PlaceError, not_in_allocation, nodelist_excluded,
  all_excluded, too_many_nodes,
}

unfoldable pub contains : List String → String → Bool
contains [] h = false
contains (x ∷ xs) h = let rest = contains xs h in if str_eq x h then true else rest

unfoldable pub remove : String → List String → List String
remove h [] = []
remove h (x ∷ xs) = let rest = remove h xs in if str_eq x h then rest else x ∷ rest

-- toStep
unfoldable pub to_step : ℕ → Node → StepNode
to_step i n = record {
  host = n.host;
  layout_index = i;
  slots = n.slots;
  gpus = n.gpus;
  host_slots = n.host_slots;
}

-- The loop over the allocation with a node list: the chosen nodes, and the names not met.
listed_loop : List String → ℕ → List Node → List String → List StepNode × List String
listed_loop excluded i [] want = ([], want)
listed_loop excluded i (n ∷ ns) want = elim (contains want n.host) [
  | true ↦
      let (out, left) = listed_loop excluded (i + 1) ns (remove n.host want) in
      (if contains excluded n.host then out else to_step i n ∷ out, left)
  | false ↦ listed_loop excluded (i + 1) ns want
]

-- The map from a host name to its node; a later node of the same name takes the place.
find_host : String → List StepNode → Option StepNode
find_host h [] = none
find_host h (n ∷ ns) = let rest = find_host h ns in if str_eq n.host h then some n else rest

drop_host : String → List StepNode → List StepNode
drop_host h [] = []
drop_host h (n ∷ ns) = let rest = drop_host h ns in if str_eq n.host h then rest else n ∷ rest

by_host : List StepNode → List StepNode → List StepNode
unfolding drop_host
by_host [] m = m
by_host (n ∷ ns) m = by_host ns (n ∷ drop_host n.host m)

order_loop : List StepNode → List String → List StepNode
unfolding find_host drop_host
order_loop m [] = []
order_loop m (h ∷ list) = elim (find_host h m) [
  | none ↦ order_loop m list
  | some n ↦ n ∷ order_loop (drop_host h m) list
]

-- inListOrder
unfoldable pub in_list_order : List StepNode → List String → List StepNode
unfolding by_host order_loop
in_list_order nodes list = order_loop (by_host nodes []) list

listed_result : StepRequest → List StepNode → List String → Result PlaceError (List StepNode)
unfolding in_list_order
listed_result req out (h ∷ hs) = err (not_in_allocation (h ∷ hs))
listed_result req [] [] = err nodelist_excluded
listed_result req (n ∷ ns) [] =
    ok (if req.ordered then in_list_order (n ∷ ns) req.nodelist else n ∷ ns)

-- The branch of selectNodes with a node list.
select_listed : Layout → StepRequest → Result PlaceError (List StepNode)
unfolding listed_loop listed_result
select_listed lay req =
    let (out, left) = listed_loop req.exclude 0 lay.nodes req.nodelist in listed_result req out left

-- The nodes that are not excluded, in allocation order.
usable_from : List String → ℕ → List Node → List StepNode
unfolding contains to_step
usable_from excluded i [] = []
usable_from excluded i (n ∷ ns) =
    let rest = usable_from excluded (i + 1) ns in
    if contains excluded n.host then rest else to_step i n ∷ rest

-- AvoidMaster: layout node 0 is left out, unless it is the only one.
avoid_master : Bool → List StepNode → List StepNode
avoid_master true (n ∷ m ∷ ns) = if n.layout_index == 0 then m ∷ ns else n ∷ m ∷ ns
avoid_master true ns = ns
avoid_master false ns = ns

unlisted_result : ℕ → List StepNode → Result PlaceError (List StepNode)
unlisted_result nodes usable =
    if length usable == 0
    then err all_excluded
    else if ltb 0 nodes
    then if ltb (length usable) nodes
      then err (too_many_nodes nodes (length usable))
      else ok (take nodes usable)
    else ok usable

-- The branch without a node list.
select_unlisted : Layout → StepRequest → Result PlaceError (List StepNode)
unfolding usable_from avoid_master unlisted_result
select_unlisted lay req =
    unlisted_result req.nodes (avoid_master req.avoid_master (usable_from req.exclude 0 lay.nodes))

select_by : Layout → StepRequest → List String → Result PlaceError (List StepNode)
unfolding select_listed select_unlisted
select_by lay req [] = select_unlisted lay req
select_by lay req (h ∷ hs) = select_listed lay req

unfoldable pub select_nodes : Layout → StepRequest → Result PlaceError (List StepNode)
unfolding select_by
select_nodes lay req = select_by lay req req.nodelist

is_zero : ℤ → Bool
is_zero (pos zero) = true
is_zero _ = false

-- The task capacity of one node.
capacity : Layout → StepRequest → StepNode → ℕ
unfolding is_zero
capacity lay req n =
    if ltb 0 (pos_part req.tasks_per_node)
    then pos_part req.tasks_per_node
    else if ltb 0 req.nodes && is_zero req.ntasks && is_zero req.tasks_per_node
    then 1
    else if ltb n.layout_index (length lay.tasks.per_node)
    then get_or lay.tasks.per_node n.layout_index 0
    else n.slots

unfoldable pub capacities : Layout → List StepNode → StepRequest → List ℕ
unfolding capacity
capacities lay [] req = []
capacities lay (n ∷ ns) req = capacity lay req n ∷ capacities lay ns req
