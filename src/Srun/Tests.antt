-- ===== src/Srun/Tests.antt =====
-- Runs of the replacement of a lost node, and the theorems applied to a job of two nodes and two
-- spares.
use slurm_shim.Common.{
  ℕ, ◌+◌, ◌≤◌, ◌<◌, Bool, true, false, [], ◌∷◌, String, str_eq, eq_iff, ◌≡◌, ◌≢◌, refl, subst,
  arith, Bool-cases, inl, inr, ok, err, length,
}
use slurm_shim.Common.Int.{pos}
use slurm_shim.Srun.Spares.{LayoutNode, JobLayout, Taken, no_spare, not_in_job, swapped, take_spare}
use slurm_shim.Srun.Spares.Counts.{host_count, name_count}
use slurm_shim.Srun.Spares.Conserved.{holdings, Run, fresh, take, run-holdings}
use slurm_shim.Srun.Spares.Reuse.{IsFresh, take_spare-again}
use slurm_shim.Srun.Spares.Replace.{
  started, host_unusable, other_failure, Cluster, Supervisor, replace, local_ranks,
}
use slurm_shim.Srun.Spares.Replace.Takeover.{IsPlaceable, TakenOver, replace-TakenOver}

abbrev node_on : ℕ → String → LayoutNode
node_on i host = record { index = i; host = host; slots = 4; gpus = []; host_slots = 4 }

abbrev two_and_two : JobLayout
two_and_two = record {
  nodes = node_on 0 "n1" ∷ node_on 1 "n2" ∷ [];
  spares = node_on 0 "s1" ∷ node_on 1 "s2" ∷ [];
  lost = [];
  swaps = [];
}

-- Step 0 replaces n2, and a later step the spare that took its place.
abbrev first_swap : Taken
first_swap = swapped 0 7 "n2" 1 (node_on 0 "s1") (node_on 1 "s2" ∷ []) two_and_two

abbrev second_swap : Taken
second_swap = swapped 1 9 "s1" 1 (node_on 1 "s2") [] first_swap.layout

spare_used : first_swap.used ≡ 1
unfolding swapped
spare_used = refl

spares_gone : take_spare 2 11 "n1" second_swap.layout ≡ err (no_spare 2 2)
unfolding take_spare
spares_gone = refl

unknown_node : take_spare 0 7 "n9" two_and_two ≡ err (not_in_job "n9" 0 2)
unfolding take_spare
unknown_node = refl

first_taken : take_spare 0 7 "n2" two_and_two ≡ ok first_swap
unfolding take_spare
first_taken = refl

second_taken : take_spare 1 9 "s1" first_swap.layout ≡ ok second_swap
unfolding take_spare
second_taken = refl

two_swaps : Run two_and_two second_swap.layout
two_swaps = take 1 9 "s1" second_swap (take 0 7 "n2" first_swap fresh first_taken) second_taken

run-holdings_example :
    ((h : String) → holdings h second_swap.layout ≡ holdings h two_and_two)
    × (length second_swap.layout.nodes ≡ length two_and_two.nodes)
    × (length second_swap.layout.swaps + length second_swap.layout.spares ≡ 0 + 2)
run-holdings_example = run-holdings two_swaps

granted_once : (h : String) → holdings h two_and_two ≤ 1
unfolding holdings
granted_once h = elim (Bool-cases (str_eq "n1" h)) [
  | inl e ↦ subst (λ g. holdings g two_and_two ≤ 1) ((eq_iff "n1" h).0 e) (omega arith)
  | inr e1 ↦ elim (Bool-cases (str_eq "n2" h)) [
    | inl e ↦ subst (λ g. holdings g two_and_two ≤ 1) ((eq_iff "n2" h).0 e) (omega arith)
    | inr e2 ↦ elim (Bool-cases (str_eq "s1" h)) [
      | inl e ↦ subst (λ g. holdings g two_and_two ≤ 1) ((eq_iff "s1" h).0 e) (omega arith)
      | inr e3 ↦ elim (Bool-cases (str_eq "s2" h)) [
        | inl e ↦ subst (λ g. holdings g two_and_two ≤ 1) ((eq_iff "s2" h).0 e) (omega arith)
        | inr e4 ↦ rw e1 (rw e2 (rw e3 (rw e4 (omega arith))))
      ]
    ]
  ]
]

two_and_two-IsFresh : IsFresh two_and_two
two_and_two-IsFresh = (granted_once, refl, refl, (refl, (refl, tt)))

lost_twice : 0 < name_count "n2" second_swap.layout.lost
unfolding swapped name_count
lost_twice = omega arith

take_spare-again_example :
    (n : LayoutNode) × (take_spare 2 11 "n2" second_swap.layout
      ≡ ok (record {
        spare = n;
        used = length second_swap.layout.swaps;
        total = length second_swap.layout.swaps + length second_swap.layout.spares;
        layout = second_swap.layout;
      }))
    × (0 < host_count n.host second_swap.layout.nodes)
take_spare-again_example = take_spare-again 2 11 "n2" two_and_two-IsFresh two_swaps lost_twice

-- The first spare is powered off, and the second one starts.
abbrev second_works : Cluster
second_works = record {
  stopping = λ round. false;
  relaunch = λ host. elim (str_eq host "s1") [ true ↦ host_unusable | false ↦ started ];
  now = λ round. round;
}

abbrev one_task : Supervisor
one_task = record {
  layout = two_and_two;
  plan = record {
    nodes = [];
    ranks = record { rank = 1; step_node_index = 1; local = 0; cpuset = []; gpus = [] } ∷ [];
    ntasks = pos 2;
    cpus_per_task = 1;
    warnings = [];
  };
  soft_swapped = false;
  step = 0;
  gpus_per_task = 0;
  auto_divide = false;
}

drained_in_order : (replace 3 second_works 1 true "n2" one_task).drains ≡ "n2" ∷ "s1" ∷ []
unfolding replace
drained_in_order = refl

never_other : (h : String) → second_works.relaunch h ≢ other_failure
never_other h = works (str_eq h "s1")
  where
    works : (b : Bool) → elim b [ true ↦ host_unusable | false ↦ started ] ≢ other_failure
    works true f = cc
    works false f = cc

n2-listed : 0 < host_count "n2" two_and_two.nodes
unfolding host_count
n2-listed = omega arith

one_task_room : IsPlaceable one_task 1
unfolding local_ranks
one_task_room = record { busy = omega arith; fits = omega arith }

replace-TakenOver_example : TakenOver second_works (replace 3 second_works 1 true "n2" one_task)
replace-TakenOver_example =
    replace-TakenOver second_works 1 true "n2" one_task (λ i. refl) never_other one_task_room
      n2-listed (inr (inl refl)) (inl refl)
