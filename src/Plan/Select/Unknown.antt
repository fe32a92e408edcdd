-- ===== src/Plan/Select/Unknown.antt =====
-- The names that selectNodes of internal/plan/place.go refuses.
use slurm_shim.Common.{
  ℕ, ◌+◌, true, List, [], ◌∷◌, ◌≡◌, ◌≢◌, refl, sym, err, All, String, Bool-cases, inl, inr,
}
use mathlib.Core.Path.{subst}
use mathlib.Core.Bool.{false≢true}
use slurm_shim.Plan.Types.{Node, Layout, StepRequest, StepNode, not_in_allocation}
use slurm_shim.Plan.Select.{
  contains, remove, listed_loop, select_listed, select_by, listed_result, select_nodes,
}
use slurm_shim.Plan.Select.Choice.{contains-remove_ne}

-- A name of the list that no node of the allocation has stays in the set of names not met.
listed_loop_left :
    (excluded : List String) (i : ℕ) (ns : List Node) (want : List String) (h : String)
    → All (λ (n : Node). n.host ≢ h) ns
    → contains want h ≡ true
    → contains (listed_loop excluded i ns want).1 h ≡ true
unfolding listed_loop
listed_loop_left excluded i [] want h a w = w
listed_loop_left excluded i (n ∷ ns) want h (d, a) w = elim (Bool-cases (contains want n.host)) [
  | inl met ↦
      rw (met, listed_loop)
        (listed_loop_left excluded (i + 1) ns (remove n.host want) h a
          (contains-remove_ne n.host h want d w))
  | inr skip ↦ rw (skip, listed_loop) (listed_loop_left excluded (i + 1) ns want h a w)
]

listed_result_left :
    (req : StepRequest) (out : List StepNode) (left : List String) (h : String)
    → contains left h ≡ true
    → listed_result req out left ≡ err (not_in_allocation left)
unfolding listed_result contains
listed_result_left req out [] h w = cc
listed_result_left req out (x ∷ left) h w = refl

select_by_unknown :
    (lay : Layout) (req : StepRequest) (list : List String) (h : String)
    → req.nodelist ≡ list
    → contains list h ≡ true
    → All (λ (n : Node). n.host ≢ h) lay.nodes
    → (left : List String) × (select_by lay req list ≡ err (not_in_allocation left))
      × (contains left h ≡ true)
unfolding select_by select_listed
select_by_unknown lay req [] h e w a = unfold contains in absurd (false≢true w)
select_by_unknown lay req (x ∷ xs) h e w a =
    let stays =
      listed_loop_left req.exclude 0 lay.nodes req.nodelist h a
        (subst (λ l. contains l h ≡ true) (sym e) w) in
    (_, listed_result_left req _ _ h stays, stays)

-- A host on the node list that is not in the allocation makes the choice fail, whatever else is
-- asked for, and the error speaks of names that include it.
pub select_nodes_unknown :
    (lay : Layout) (req : StepRequest) (h : String)
    → contains req.nodelist h ≡ true
    → All (λ (n : Node). n.host ≢ h) lay.nodes
    → (left : List String) × (select_nodes lay req ≡ err (not_in_allocation left))
      × (contains left h ≡ true)
unfolding select_nodes
select_nodes_unknown lay req h w a = select_by_unknown lay req req.nodelist h refl w a
