-- ===== src/Srun/Spares.antt =====
-- internal/cli/srun/elastic.go: takeSpare on the job's layout (internal/layout/schema.go), which
-- holds the hot spares and the swaps so far. The layout's file and its lock are outside: a call is
-- one step of the layout, and a call that fails writes nothing.
pub mod Counts
pub mod Branches
pub mod Conserved
pub mod Chain
pub mod Reuse
pub mod Replace
use slurm_shim.Common.{
  ℕ, zero, suc, ◌+◌, Bool, true, false, List, [], ◌∷◌, ◌++◌, Option, none, some, String, str_eq,
  if◌then◌else◌, Result, ok, err, length,
}

-- layout.Node, the fields that a replacement reads or writes.
pub record LayoutNode : Type 0 where
  pub index : ℕ
  pub host : String
  pub slots : ℕ
  pub gpus : List String
  pub host_slots : ℕ

pub record Swap : Type 0 where
  pub lost : String
  pub spare : String
  pub step : ℕ
  pub unix : ℕ

-- layout.Layout, the fields that a replacement reads or writes.
pub record JobLayout : Type 0 where
  pub nodes : List LayoutNode
  pub spares : List LayoutNode
  pub lost : List String
  pub swaps : List Swap

-- The errors, each with the used and total spares that the callers print.
pub data SpareError : Type 0 where
  no_spare : ℕ → ℕ → SpareError
  not_in_job : String → ℕ → ℕ → SpareError

-- What a successful call returns, with the layout that it leaves.
pub record Taken : Type 0 where
  pub spare : LayoutNode
  pub used : ℕ
  pub total : ℕ
  pub layout : JobLayout

-- The last index at which the host stands, from index `i` on; `found` is the one so far.
unfoldable pub last_index : List LayoutNode → String → ℕ → Option ℕ → Option ℕ
last_index [] host i found = found
last_index (n ∷ ns) host i found =
    last_index ns host (suc i) (if str_eq n.host host then some i else found)

unfoldable pub first_node : List LayoutNode → String → Option LayoutNode
first_node [] host = none
first_node (n ∷ ns) host =
    let rest = first_node ns host in if str_eq n.host host then some n else rest

-- The spare of the last swap of the host; `next` is the one so far.
unfoldable pub last_swap : List Swap → String → String → String
last_swap [] host next = next
last_swap (sw ∷ sws) host next = last_swap sws host (if str_eq sw.lost host then sw.spare else next)

abbrev pub node_or : Option LayoutNode → Option LayoutNode → Option LayoutNode
node_or (some n) other = some n
node_or none other = other

-- lost -> spare -> spare ..., at most one round for each swap.
unfoldable pub follow : ℕ → List LayoutNode → List Swap → String → Option LayoutNode
unfolding last_swap first_node
follow zero nodes swaps host = none
follow (suc rounds) nodes swaps host =
    let next = last_swap swaps host "" in
    let further = follow rounds nodes swaps next in
    if str_eq next "" then none else node_or (first_node nodes next) further

unfoldable pub set_node : List LayoutNode → ℕ → LayoutNode → List LayoutNode
set_node [] i n = []
set_node (m ∷ ns) zero n = n ∷ ns
set_node (m ∷ ns) (suc i) n = m ∷ set_node ns i n

-- The spare takes the lost node's index.
unfoldable pub swapped : ℕ → ℕ → String → ℕ → LayoutNode → List LayoutNode → JobLayout → Taken
unfolding set_node
swapped step unix lost idx s spares l =
    let spare : LayoutNode = record s { index = idx } in
    let swaps =
      l.swaps ++ (record { lost = lost; spare = spare.host; step = step; unix = unix } ∷ []) in
    record {
      spare = spare;
      used = length swaps;
      total = length l.swaps + length l.spares;
      layout = record {
        nodes = set_node l.nodes idx spare;
        spares = spares;
        lost = l.lost ++ (lost ∷ []);
        swaps = swaps;
      };
    }

unfoldable pub take_next :
    ℕ → ℕ → String → ℕ → List LayoutNode → JobLayout → Result SpareError Taken
unfolding swapped
take_next step unix lost idx [] l =
    err (no_spare (length l.swaps) (length l.swaps + length l.spares))
take_next step unix lost idx (s ∷ spares) l = ok (swapped step unix lost idx s spares l)

-- A node that another step has replaced: its replacement again.
unfoldable pub reuse : String → Option LayoutNode → JobLayout → Result SpareError Taken
reuse lost none l = err (not_in_job lost (length l.swaps) (length l.swaps + length l.spares))
reuse lost (some n) l = ok (record {
  spare = n;
  used = length l.swaps;
  total = length l.swaps + length l.spares;
  layout = l;
})

unfoldable pub take_at : ℕ → ℕ → String → Option ℕ → JobLayout → Result SpareError Taken
unfolding take_next reuse follow
take_at step unix lost none l = reuse lost (follow (length l.swaps) l.nodes l.swaps lost) l
take_at step unix lost (some idx) l = take_next step unix lost idx l.spares l

-- takeSpare
unfoldable pub take_spare : ℕ → ℕ → String → JobLayout → Result SpareError Taken
unfolding take_at last_index
take_spare step unix lost l = take_at step unix lost (last_index l.nodes lost 0 none) l
