-- ===== src/Plan/Select/Refusals.antt =====
-- The errors of selectNodes in internal/plan/place.go are its own.
use slurm_shim.Common.{ℕ, List, [], ◌∷◌, ◌≢◌, ltb, ◌==◌, Bool-cases, inl, inr, err, length, String}
use slurm_shim.Plan.Types.{Layout, StepRequest, StepNode, slice_panic}
use slurm_shim.Plan.Select.{
  select_nodes, listed_result, select_listed, unlisted_result, select_unlisted, select_by,
}

listed_result-slice_panic :
    (req : StepRequest) (out : List StepNode) (left : List String)
    → listed_result req out left ≢ err slice_panic
unfolding listed_result
listed_result-slice_panic req out (h ∷ hs) e = cc
listed_result-slice_panic req [] [] e = cc
listed_result-slice_panic req (n ∷ ns) [] e = cc

unlisted_result-slice_panic :
    (nodes : ℕ) (usable : List StepNode) → unlisted_result nodes usable ≢ err slice_panic
unfolding unlisted_result
unlisted_result-slice_panic nodes usable e = elim (Bool-cases (length usable == 0)) [
  | inl nothing ↦ let h = rw nothing at e in cc
  | inr some_left ↦ elim (Bool-cases (ltb 0 nodes)) [
    | inr all ↦ let h = rw (some_left, all) at e in cc
    | inl asked ↦ elim (Bool-cases (ltb (length usable) nodes)) [
      | inl over ↦ let h = rw (some_left, asked, over) at e in cc
      | inr fits ↦ let h = rw (some_left, asked, fits) at e in cc
    ]
  ]
]

select_by-slice_panic :
    (lay : Layout) (req : StepRequest) (list : List String)
    → select_by lay req list ≢ err slice_panic
unfolding select_by select_listed select_unlisted
select_by-slice_panic lay req [] e = unlisted_result-slice_panic req.nodes _ e
select_by-slice_panic lay req (h ∷ hs) e = listed_result-slice_panic req _ _ e

pub select_nodes-slice_panic :
    (lay : Layout) (req : StepRequest) → select_nodes lay req ≢ err slice_panic
unfolding select_nodes
select_nodes-slice_panic lay req = select_by-slice_panic lay req req.nodelist
