-- ===== src/Plan/Spread.antt =====
-- internal/plan/place.go: how many ranks each step node runs (spread, countPositive, dropEmpty).
pub mod Level
use slurm_shim.Common.{
  ℕ, zero, suc, ◌+◌, ◌-◌, ◌^◌, Bool, true, false, ◌&&◌, List, [], ◌∷◌, Option, none, some, ◌≡◌,
  refl, ltb, if◌then◌else◌, Result, ok, err, length, replicate,
}
use slurm_shim.Common.Int.{ℤ, pos, negsuc, pos_part}
use slurm_shim.Text.Int64.{to_int, int_lt}
use slurm_shim.Plan.Types.{StepNode, PlaceError, too_many_tasks}

sum_from : ℕ → List ℕ → ℕ
sum_from acc [] = acc
sum_from acc (c ∷ cs) = sum_from (acc + c) cs

-- The total of the capacities, an `int`.
unfoldable pub total : List ℕ → ℤ
unfolding sum_from to_int
total caps = to_int (sum_from 0 caps)

-- One pass over the nodes: each one below its capacity gets a rank while there are any left.
spread_pass : List ℕ → List ℕ → ℕ → ℕ → List ℕ × ℕ
spread_pass [] counts placed ntasks = ([], placed)
spread_pass (c ∷ caps) [] placed ntasks = ([], placed)
spread_pass (c ∷ caps) (k ∷ counts) placed ntasks =
    let gets = ltb placed ntasks && ltb k c in
    let (counts', placed') = spread_pass caps counts (if gets then placed + 1 else placed) ntasks in
    ((if gets then k + 1 else k) ∷ counts', placed')

-- `for placed < ntasks` on fuel; `none` when the fuel runs out.
spread_loop : ℕ → List ℕ → List ℕ → ℕ → ℕ → Option (List ℕ)
unfolding spread_pass
spread_loop zero caps counts placed ntasks = none
spread_loop (suc f) caps counts placed ntasks = elim (ltb placed ntasks) [
  | false ↦ some counts
  | true ↦
      let (counts', placed') = spread_pass caps counts placed ntasks in
      spread_loop f caps counts' placed' ntasks
]

abbrev counted : Option (List ℕ) → Option (Result PlaceError (List ℕ))
counted none = none
counted (some counts) = some (ok counts)

-- The ranks of each node, `none` if the loop were not to end in `ntasks` passes.
-- The loop of a negative `ntasks` makes no pass.
unfoldable pub spread : List ℕ → ℤ → Option (Result PlaceError (List ℕ))
unfolding spread_loop total
spread caps ntasks =
    if int_lt (total caps) ntasks
    then some (err (too_many_tasks ntasks (total caps)))
    else counted
        (spread_loop (suc (pos_part ntasks)) caps (replicate (length caps) 0) 0 (pos_part ntasks))

unfoldable pub count_positive : List ℕ → ℕ
count_positive [] = 0
count_positive (v ∷ vs) = let n = count_positive vs in if ltb 0 v then suc n else n

unfoldable pub drop_empty : List StepNode → List ℕ → List StepNode × List ℕ
drop_empty [] counts = ([], [])
drop_empty (n ∷ nodes) [] = ([], [])
drop_empty (n ∷ nodes) (c ∷ counts) =
    let (nodes', counts') = drop_empty nodes counts in
    if ltb 0 c then (n ∷ nodes', c ∷ counts') else (nodes', counts')

three_nodes : spread (2 ∷ 1 ∷ 4 ∷ []) (pos 5) ≡ some (ok (2 ∷ 1 ∷ 2 ∷ []))
unfolding spread
three_nodes = refl

too_many : spread (2 ∷ 1 ∷ []) (pos 4) ≡ some (err (too_many_tasks (pos 4) (pos 3)))
unfolding spread
too_many = refl

negative : spread (2 ∷ 1 ∷ []) (negsuc 2) ≡ some (ok (0 ∷ 0 ∷ []))
unfolding spread
negative = refl

-- The total wraps around, and five ranks are refused on two nodes that could take them.
wrapped :
    spread ((2 ^ 63 - 1) ∷ (2 ^ 63 - 1) ∷ []) (pos 5)
    ≡ some (err (too_many_tasks (pos 5) (negsuc 1)))
unfolding spread
wrapped = refl
