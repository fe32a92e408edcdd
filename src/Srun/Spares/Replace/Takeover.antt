-- ===== src/Srun/Spares/Replace/Takeover.antt =====
-- A lost node is taken over while a usable spare is left (replace of internal/cli/srun/elastic.go).
use slurm_shim.Common.{
  ℕ, suc, ◌<◌, Bool, true, false, List, [], ◌∷◌, none, some, String, str_eq, ◌≡◌, ◌≢◌, refl, sym,
  ap, ◌∙◌, subst, arith, get_elem?, Option-cases, ◌⊎◌, inl, inr, ok, length, if-true, ◌+◌, ◌*◌, ◌≤◌,
  Bool-cases, ◌==◌,
}
use slurm_shim.Text.Decimal.{max_int}
use slurm_shim.Plan.Types.{PlacedRank, StepPlan}
use slurm_shim.Plan.Devices.Shares.{assign_devices_total}
use slurm_shim.Srun.Spares.{
  LayoutNode, JobLayout, Taken, last_index, set_node, swapped, take_at, take_next, take_spare,
}
use slurm_shim.Srun.Spares.Counts.{
  is_host, host_count, host_count-set_node, is_host-le_count, last_index-IsAt, last_index-listed,
  str_eq_refl,
}
use slurm_shim.Srun.Spares.Replace.{
  Relaunched, started, host_unusable, other_failure, Cluster, Supervisor, taken_over, Attempt,
  drained, after_relaunch, moved, placed, relaunch_on, after_take, local_ranks, give_devices,
  other_sets, on_spare, place_with, place_on_spare, replace_loop, replace,
}

-- The node that a swap puts at an index stands among the nodes.
set_node-listed :
    (ns : List LayoutNode) (k : ℕ) (m s : LayoutNode)
    → get_elem? ns k ≡ some m
    → 0 < host_count s.host (set_node ns k s)
set_node-listed ns k m s here =
    let kept = host_count-set_node s.host ns k m s here in
    let small = is_host-le_count s.host ns k m here in
    let one : is_host s.host s ≡ 1 = if-true (str_eq s.host s.host) 1 0 (str_eq_refl s.host) in
    omega (arith, kept, small, one)

-- A present node gives way to the next spare, which is a node from then on.
take_spare-next :
    (step unix : ℕ) (lost : String) (l : JobLayout) (s : LayoutNode) (spares : List LayoutNode)
    → 0 < host_count lost l.nodes
    → l.spares ≡ s ∷ spares
    → (t : Taken) × (take_spare step unix lost l ≡ ok t)
      × (t.spare.host ≡ s.host)
      × (t.layout.spares ≡ spares)
      × (0 < host_count s.host t.layout.nodes)
unfolding take_spare take_at take_next swapped
take_spare-next step unix lost l s spares listed e =
    elim (Option-cases (last_index l.nodes lost 0 none)) [
      | inl gone ↦ absurd (last_index-listed l.nodes lost 0 listed gone)
      | inr (idx, found) ↦
          let (m, (here, same)) = last_index-IsAt l.nodes lost idx found in
          (
            swapped step unix lost idx s spares l,
            ap (λ i. take_at step unix lost i l) found
                ∙ ap (λ sp. take_next step unix lost idx sp l) e,
            refl,
            refl,
            set_node-listed l.nodes idx m (record s { index = idx }) here,
          )
    ]

local_ranks-give_devices :
    (ni : ℕ) (sets : List (List String)) (ranks : List PlacedRank)
    → local_ranks ni (give_devices ni sets ranks) ≡ local_ranks ni ranks
unfolding local_ranks give_devices
local_ranks-give_devices ni sets [] = refl
local_ranks-give_devices ni sets (r ∷ ranks) = elim (Bool-cases (r.step_node_index == ni)) [
  | inl own ↦ rw (own, own) (ap (λ n. 1 + n) (local_ranks-give_devices ni (other_sets sets) ranks))
  | inr other ↦ rw (other, other) (ap (λ n. 0 + n) (local_ranks-give_devices ni sets ranks))
]

-- The step node runs a rank, and the devices that its ranks ask for are an `int`.
pub record IsPlaceable (s : Supervisor) (ni : ℕ) : Type 0 where
  pub busy : 0 < local_ranks ni s.plan.ranks
  pub fits : s.gpus_per_task * local_ranks ni s.plan.ranks ≤ max_int

-- Then it can be placed on any spare, and from there on the next one.
placed-IsPlaceable :
    (ni : ℕ) (t : Taken) (s : Supervisor)
    → IsPlaceable s ni
    → (plan : StepPlan) × (placed ni t s ≡ some plan) × IsPlaceable (moved t plan s) ni
unfolding place_on_spare place_with on_spare moved
placed-IsPlaceable ni t s p =
    let (answer, e) =
      assign_devices_total t.spare.gpus (local_ranks ni s.plan.ranks) s.gpus_per_task s.auto_divide
        p.busy p.fits in
    let same = local_ranks-give_devices ni answer.0 s.plan.ranks in
    (
      on_spare ni t.spare answer.0 s.plan,
      ap (place_with ni t.spare s.plan) e,
      record {
        busy = subst (λ n. 0 < n) (sym same) p.busy;
        fits = subst (λ n. s.gpus_per_task * n ≤ max_int) (sym same) p.fits;
      },
    )

-- Some spare of a list starts.
abbrev pub SomeStarts : Cluster → List LayoutNode → Type 0
SomeStarts c [] = ⊥
SomeStarts c (s ∷ spares) = (c.relaunch s.host ≡ started) ⊎ SomeStarts c spares

abbrev pub TakenOver : Cluster → Attempt → Type 0
TakenOver c a =
    (n : LayoutNode) × (used : ℕ) × (total : ℕ) × (a.outcome ≡ taken_over n used total)
    × (c.relaunch n.host ≡ started)
    × (0 < host_count n.host a.supervisor.layout.nodes)

drained-TakenOver :
    (c : Cluster) (down : Bool) (host : String) (a : Attempt)
    → TakenOver c a
    → TakenOver c (drained down host a)
drained-TakenOver c false host a h = h
drained-TakenOver c true host a h = h

-- A relaunch that starts takes over, and one on an unusable host leaves it to the next round.
after_relaunch-TakenOver :
    (c : Cluster) (t : Taken) (s : Supervisor) (next : String → Supervisor → Attempt)
    (r : Relaunched)
    → c.relaunch t.spare.host ≡ r
    → r ≢ other_failure
    → 0 < host_count t.spare.host s.layout.nodes
    → (r ≡ host_unusable → TakenOver c (next t.spare.host s))
    → TakenOver c (after_relaunch r t s next)
after_relaunch-TakenOver c t s next started e works listed further =
    (t.spare, t.used, t.total, refl, e, listed)
after_relaunch-TakenOver c t s next host_unusable e works listed further = further refl
after_relaunch-TakenOver c t s next other_failure e works listed further = absurd (works refl)

starts-later :
    (c : Cluster) (n : LayoutNode) (spares : List LayoutNode)
    → SomeStarts c (n ∷ spares)
    → c.relaunch n.host ≡ host_unusable
    → SomeStarts c spares
starts-later c n spares (inl here) e = cc
starts-later c n spares (inr later) e = later

replace_loop-TakenOver :
    (spares : List LayoutNode) (c : Cluster) (ni round : ℕ) (down : Bool) (lost : String)
    (s : Supervisor)
    → ((i : ℕ) → c.stopping i ≡ false)
    → ((h : String) → c.relaunch h ≢ other_failure)
    → IsPlaceable s ni
    → 0 < host_count lost s.layout.nodes
    → s.layout.spares ≡ spares
    → SomeStarts c spares
    → TakenOver c (replace_loop (suc (length spares)) c ni round down lost s)
unfolding replace_loop after_take relaunch_on
replace_loop-TakenOver [] c ni round down lost s on works room listed e some_start =
    absurd some_start
replace_loop-TakenOver (n ∷ spares) c ni round down lost s on works room listed e some_start =
    let (t, taken, same, left, there) =
      take_spare-next s.step (c.now round) lost s.layout n spares listed e in
    let (plan, fits, room') = placed-IsPlaceable ni t s room in
    let next = replace_loop (suc (length spares)) c ni (suc round) true in
    let here = subst (λ h. 0 < host_count h t.layout.nodes) (sym same) there in
    rw (on round) (
      rw taken (
        drained-TakenOver c down lost (relaunch_on c t s next (placed ni t s)) (
          rw fits (
            after_relaunch-TakenOver c t (moved t plan s) next (c.relaunch t.spare.host) refl
              (works t.spare.host) (unfold moved in here)
              (λ unusable.
                replace_loop-TakenOver spares c ni (suc round) true t.spare.host (moved t plan s) on
                  works room' (unfold moved in here) (unfold moved in left)
                  (starts-later c n spares some_start (ap c.relaunch (sym same) ∙ unusable)))))))

-- Whatever the hosts of the spares answer, as long as srun does not stop the step, no relaunch
-- fails for a reason that is not the host's, and the step node runs a rank, with --gpus-per-task times
-- its ranks an `int`: a node of the job that is lost is taken over while some
-- spare can start its tasks, by a spare that did start them and that is a node of the job from then
-- on. The loop needs at most one round for each spare, and one. For a stepper that only ended early
-- this is the step's first such swap.
pub replace-TakenOver :
    (c : Cluster) (ni : ℕ) (down : Bool) (lost : String) (s : Supervisor)
    → ((i : ℕ) → c.stopping i ≡ false)
    → ((h : String) → c.relaunch h ≢ other_failure)
    → IsPlaceable s ni
    → 0 < host_count lost s.layout.nodes
    → SomeStarts c s.layout.spares
    → (down ≡ true) ⊎ (s.soft_swapped ≡ false)
    → TakenOver c (replace (suc (length s.layout.spares)) c ni down lost s)
unfolding replace
replace-TakenOver c ni true lost s on works room listed some_start first =
    replace_loop-TakenOver s.layout.spares c ni 0 true lost s on works room listed refl some_start
replace-TakenOver c ni false lost s on works room listed some_start (inl down) = cc
replace-TakenOver c ni false lost s on works room listed some_start (inr first) = rw first (
    replace_loop-TakenOver s.layout.spares c ni 0 false lost (record s { soft_swapped = true }) on
      works (record { busy = room.busy; fits = room.fits }) listed refl some_start)
