-- ===== src/Plan/Place/BlockOrder.antt =====
-- What Place of internal/plan/place.go promises of the whole step.
use slurm_shim.Common.{
  ℕ, suc, ◌+◌, ◌*◌, ◌≤◌, ◌<◌, Bool, true, false, List, [], ◌∷◌, map, some, ◌≡◌, inl, inr, refl, sym,
  ap, ◌∙◌, arith, ltb, Bool-cases, Result, ok, err, ok-injective, err-ne-ok, some_inj, length, All,
}
use mathlib.Core.Path.{subst}
use slurm_shim.Common.Int.{ℤ, pos_part}
use slurm_shim.Text.Decimal.{max_int}
use slurm_shim.Plan.Types.{Layout, StepRequest, StepNode, PlacedRank, StepPlan, Warning, PlaceError}
use slurm_shim.Plan.Select.{select_nodes, capacities}
use slurm_shim.Plan.Spread.{drop_empty}
use slurm_shim.Plan.Spread.Level.{sum, IsSpread, spread_total}
use slurm_shim.Plan.Distribute.{distribute}
use slurm_shim.Plan.Distribute.Blocks.{blocks, position, distribute-blocks, distribute-gpus}
use slurm_shim.Plan.Place.{tasks_for, threads_for, unbind, finish, place_spread, place_on, place}

drop_empty-length :
    (nodes : List StepNode) (counts : List ℕ)
    → length counts ≡ length nodes
    → (length (drop_empty nodes counts).1 ≡ length (drop_empty nodes counts).0)
      × (sum (drop_empty nodes counts).1 ≡ sum counts)
      × All (λ (c : ℕ). 0 < c) (drop_empty nodes counts).1
unfolding drop_empty
drop_empty-length [] [] h = (refl, refl, tt)
drop_empty-length [] (c ∷ cs) h = absurd (omega arith)
drop_empty-length (n ∷ ns) [] h = absurd (omega arith)
drop_empty-length (n ∷ ns) (c ∷ cs) h =
    let (l, s, a) = drop_empty-length ns cs (omega arith) in
    elim (Bool-cases (ltb 0 c)) [
      | inl some_ranks ↦ rw some_ranks (ap suc l, ap (λ k. c + k) s, (ground arith, a))
      | inr no_rank ↦ rw no_rank (l, ground arith, a)
    ]

length-capacities :
    (lay : Layout) (nodes : List StepNode) (req : StepRequest)
    → length (capacities lay nodes req) ≡ length nodes
unfolding capacities
length-capacities lay [] req = refl
length-capacities lay (n ∷ ns) req = ap suc (length-capacities lay ns req)

pub kept_counts :
    (lay : Layout) (req : StepRequest) (nodes : List StepNode) (counts : List ℕ) (n : ℤ)
    → IsSpread (capacities lay nodes req) n counts
    → (length (drop_empty nodes counts).1 ≡ length (drop_empty nodes counts).0)
      × (sum (drop_empty nodes counts).1 ≡ pos_part n)
      × All (λ (c : ℕ). 0 < c) (drop_empty nodes counts).1
kept_counts lay req nodes counts n spreads =
    let (l, s, a) =
      drop_empty-length nodes counts (spreads.sized ∙ length-capacities lay nodes req) in
    (l, s ∙ spreads.placed, a)

map-unbind :
    (b : Bool) (ranks : List PlacedRank) → map position (unbind b ranks) ≡ map position ranks
unfolding unbind
map-unbind false ranks = refl
map-unbind true [] = refl
map-unbind true (r ∷ ranks) = ap (λ k. position r ∷ k) (map-unbind true ranks)

-- The geometry of a plan: a positive count for each node of the step, adding up to the task count,
-- and the ranks in block order by those counts.
pub record IsBlockPlan (p : StepPlan) (counts : List ℕ) : Type 0 where
  pub sized : length counts ≡ length p.nodes
  pub busy : All (λ (c : ℕ). 0 < c) counts
  pub placed : sum counts ≡ pos_part p.ntasks
  pub ordered : map position p.ranks ≡ blocks 0 0 counts

finish-ok :
    (req : StepRequest) (kept : List StepNode) (n : ℤ) (cpt : ℕ) (warns : List Warning)
    (m : Result PlaceError (List PlacedRank × List Warning)) (p : StepPlan)
    → finish req kept n cpt warns m ≡ ok p
    → (r : List PlacedRank × List Warning) × (m ≡ ok r)
      × (p.nodes ≡ kept)
      × (p.ranks ≡ unbind req.no_bind r.0)
      × (p.ntasks ≡ n)
unfolding finish
finish-ok req kept n cpt warns (err e) p h = absurd (err-ne-ok h)
finish-ok req kept n cpt warns (ok r) p h =
    let e = sym (ok-injective h) in
    (
      r,
      refl,
      ap (λ (q : StepPlan). q.nodes) e,
      ap (λ (q : StepPlan). q.ranks) e,
      ap (λ (q : StepPlan). q.ntasks) e,
    )

-- The stages of a successful Place.
record Stages (lay : Layout) (req : StepRequest) (p : StepPlan) : Type 0 where
  nodes : List StepNode
  selected : select_nodes lay req ≡ ok nodes
  counts : List ℕ
  spreads :
      IsSpread (capacities lay nodes req) (tasks_for req.ntasks (capacities lay nodes req)) counts
  cpt : ℕ
  r : List PlacedRank × List Warning
  distributed :
      distribute
        (drop_empty nodes counts).0
        (drop_empty nodes counts).1
        cpt
        req.gpus_per_task
        req.auto_divide_gpus
        req.gpu_bind_explicit
      ≡ ok r
  kept : p.nodes ≡ (drop_empty nodes counts).0
  ranked : p.ranks ≡ unbind req.no_bind r.0
  tasks : p.ntasks ≡ tasks_for req.ntasks (capacities lay nodes req)

place_on-Stages :
    (lay : Layout) (req : StepRequest) (m : Result PlaceError (List StepNode)) (p : StepPlan)
    → select_nodes lay req ≡ m
    → place_on lay req m ≡ some (ok p)
    → Stages lay req p
unfolding place_on
place_on-Stages lay req (err e) p s h = absurd (err-ne-ok (some_inj h))
place_on-Stages lay req (ok nodes) p s h =
    let caps = capacities lay nodes req in
    let ntasks = tasks_for req.ntasks caps in
    elim (spread_total caps ntasks) [
      | inl over ↦
          absurd (err-ne-ok (some_inj (ap (place_spread lay req nodes caps ntasks) (sym over) ∙ h)))
      | inr (counts, e, fine) ↦
          let (r, d, k, q, t) =
            finish-ok req (drop_empty nodes counts).0 ntasks (threads_for lay req) _ _ p
              (some_inj (ap (place_spread lay req nodes caps ntasks) (sym e) ∙ h)) in
          record {
            nodes = nodes;
            selected = s;
            counts = counts;
            spreads = fine;
            cpt = threads_for lay req;
            r = r;
            distributed = d;
            kept = k;
            ranked = q;
            tasks = t;
          }
    ]

place-Stages :
    (lay : Layout) (req : StepRequest) (p : StepPlan)
    → place lay req ≡ some (ok p)
    → Stages lay req p
unfolding place
place-Stages lay req p h = place_on-Stages lay req (select_nodes lay req) p refl h

-- A plan that Place returns is in block order: there is a count of ranks for each node of the step,
-- every count is positive, they add up to the task count (none for a negative one), and the ranks
-- are numbered 0, 1, ... through the nodes in step order, with local ranks from 0 on each node.
pub place-IsBlockPlan :
    (lay : Layout) (req : StepRequest) (p : StepPlan)
    → place lay req ≡ some (ok p)
    → (counts : List ℕ) × IsBlockPlan p counts
place-IsBlockPlan lay req p h =
    let st = place-Stages lay req p h in
    let (l, s, a) = kept_counts lay req st.nodes st.counts _ st.spreads in
    (
      _,
      record {
        sized = l ∙ ap length (sym st.kept);
        busy = a;
        placed = s ∙ ap pos_part (sym st.tasks);
        ordered =
            ap (map position) st.ranked
            ∙ map-unbind req.no_bind st.r.0
            ∙ distribute-blocks st.cpt req.gpus_per_task req.auto_divide_gpus req.gpu_bind_explicit
                _ _ st.r l st.distributed;
      },
    )

mul_mono : (g a b : ℕ) → a ≤ b → g * a ≤ g * b
mul_mono g a b h = grind arith

-- What holds of the sum of the counts holds of each.
pub All-small : (g : ℕ) (cs : List ℕ) → g * sum cs ≤ max_int → All (λ (c : ℕ). g * c ≤ max_int) cs
All-small g [] h = tt
All-small g (c ∷ cs) h = (
  omega (arith, mul_mono g c (c + sum cs) (omega arith), h),
  All-small g cs (omega (arith, mul_mono g (sum cs) (c + sum cs) (omega arith), h)),
)

All-unbind :
    (b : Bool) (g : ℕ) (ranks : List PlacedRank)
    → All (λ (k : PlacedRank). length k.gpus ≡ g) ranks
    → All (λ (k : PlacedRank). length k.gpus ≡ g) (unbind b ranks)
unfolding unbind
All-unbind false g ranks a = a
All-unbind true g [] a = tt
All-unbind true g (r ∷ ranks) (e, a) = (e, All-unbind true g ranks a)

-- With --gpus-per-task=g, where g times the tasks of the step is an `int`, every rank of a plan that
-- Place returns sees exactly g devices.
pub place-gpus :
    (lay : Layout) (req : StepRequest) (p : StepPlan)
    → 0 < req.gpus_per_task
    → req.gpus_per_task * pos_part p.ntasks ≤ max_int
    → place lay req ≡ some (ok p)
    → All (λ (k : PlacedRank). length k.gpus ≡ req.gpus_per_task) p.ranks
place-gpus lay req p hg small h =
    let st = place-Stages lay req p h in
    let (l, s, a) = kept_counts lay req st.nodes st.counts _ st.spreads in
    let few : req.gpus_per_task * sum (drop_empty st.nodes st.counts).1 ≤ max_int =
      rw (s, ← st.tasks) small in
    subst (All (λ (k : PlacedRank). length k.gpus ≡ req.gpus_per_task)) (sym st.ranked) (
      All-unbind req.no_bind req.gpus_per_task st.r.0 (
        distribute-gpus st.cpt req.gpus_per_task req.auto_divide_gpus req.gpu_bind_explicit _ _ st.r
          hg (All-small req.gpus_per_task _ few) st.distributed))
