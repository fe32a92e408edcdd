-- ===== src/Plan/Policy/NodeGeometry.antt =====
-- What nodeGeometry of internal/plan/taskpolicy.go promises.
use slurm_shim.Common.{
  ℕ, ◌≤◌, Bool, true, false, List, [], ◌∷◌, map, ◌≡◌, ◌⊎◌, ◌↔◌, inl, inr, refl, arith, sym, ◌∙◌,
  ◌==◌, ltb, if◌then◌else◌, All, length, ap, suc,
}
use native.Mathlib.Decide.{ℕ_discrete, dec_lt}
use native.Mathlib.Nat.{le_trans}
use mathlib.Core.Path.{subst}
use mathlib.Core.Bool.{false≢true}
use slurm_shim.Plan.Policy.{NodeAlloc, TaskGeometry, node_loop, node_geometry}
use slurm_shim.Plan.Policy.GpuGeometry.{AllSlots, SlotsAtLeast}

-- Some node has `m` slots.
abbrev pub HasSlots : ℕ → List NodeAlloc → Type 0
HasSlots m [] = ⊥
HasSlots m (n ∷ ns) = (n.slots ≡ m) ⊎ HasSlots m ns

least_cases :
    (s m : ℕ)
    → ((if ltb s m then s else m) ≤ m)
      × ((if ltb s m then s else m) ≤ s)
      × (((if ltb s m then s else m) ≡ m) ⊎ ((if ltb s m then s else m) ≡ s))
least_cases s m = elim (dec_lt s m) [
  | yes l ↦ (ground arith, ground arith, inr (ground arith))
  | no l ↦ (ground arith, ground arith, inl (ground arith))
]

node_loop_least :
    (first : ℕ) (ns : List NodeAlloc) (u : Bool) (m : ℕ)
    → ((node_loop first ns u m).1 ≤ m)
      × SlotsAtLeast (node_loop first ns u m).1 ns
      × (((node_loop first ns u m).1 ≡ m) ⊎ HasSlots (node_loop first ns u m).1 ns)
unfolding node_loop
node_loop_least first [] u m = (omega arith, tt, inl refl)
node_loop_least first (n ∷ ns) u m =
    let u' = if n.slots == first then u else false in
    let m' = if ltb n.slots m then n.slots else m in
    let (le, below, has) = node_loop_least first ns u' m' in
    let (cut, under, from) = least_cases n.slots m in
    (
      le_trans le cut,
      (le_trans le under, below),
      elim has [
        | inr t ↦ inr (inr t)
        | inl e ↦ elim from [ inl f ↦ inl (e ∙ f) | inr f ↦ inr (inl (sym (e ∙ f))) ]
      ],
    )

node_loop_uniform :
    (first : ℕ) (ns : List NodeAlloc) (u : Bool) (m : ℕ)
    → ((node_loop first ns u m).0 ≡ true) ↔ ((u ≡ true) × AllSlots first ns)
unfolding node_loop
node_loop_uniform first [] u m = (λ h. (h, tt), λ h. h.0)
node_loop_uniform first (n ∷ ns) u m =
    let m' = if ltb n.slots m then n.slots else m in
    elim (ℕ_discrete n.slots first) [
      | yes e ↦
          let ih = node_loop_uniform first ns u m' in
          (
            λ h. let r = ih.0 (ground arith) in (r.0, (e, r.1)),
            λ h. let r = ih.1 (h.0, h.1.1) in ground arith,
          )
      | no e ↦
          let ih = node_loop_uniform first ns false m' in
          (λ h. let r = ih.0 (ground arith) in absurd (false≢true r.0), λ h. absurd (e h.1.0))
    ]

-- What the node policy promises: one task on each node, the threads per task are the least slots
-- of a node, which some node has, and a warning stands there exactly if the slots differ.
pub record IsNodeGeometry (ns : List NodeAlloc) (g : TaskGeometry) : Type 0 where
  pub sized : length g.per_node ≡ length ns
  pub counted : g.ntasks ≡ length ns
  pub sets_threads : g.cpus_per_task_set ≡ true
  pub one_each : All (λ (c : ℕ). c ≡ 1) g.per_node
  pub below : SlotsAtLeast g.cpus_per_task ns
  pub attained : HasSlots g.cpus_per_task ns
  pub warned : (g.warnings ≡ []) ↔ AllSlots g.cpus_per_task ns

All-ones : (ns : List NodeAlloc) → All (λ (c : ℕ). c ≡ 1) (map (λ _. 1) ns)
All-ones [] = tt
All-ones (n ∷ ns) = (refl, All-ones ns)

length-ones : (ns : List NodeAlloc) → length (map {B = ℕ} (λ (n : NodeAlloc). 1) ns) ≡ length ns
length-ones [] = refl
length-ones (n ∷ ns) = ap suc (length-ones ns)

AllSlots-HasSlots : (f k : ℕ) (ns : List NodeAlloc) → AllSlots f ns → HasSlots k ns → f ≡ k
AllSlots-HasSlots f k [] a t = absurd t
AllSlots-HasSlots f k (n ∷ ns) (e, rest) (inl q) = sym e ∙ q
AllSlots-HasSlots f k (n ∷ ns) (e, rest) (inr t) = AllSlots-HasSlots f k ns rest t

-- The node policy, on any allocation with a node: there is a count for each node, every count is 1,
-- the number of tasks is that of the nodes, and the threads per task are set, to the least slots of
-- a node, which some node has; there is no warning exactly if all nodes have it.
pub node_geometry-IsNodeGeometry :
    (n : NodeAlloc) (ns : List NodeAlloc) → IsNodeGeometry (n ∷ ns) (node_geometry n ns)
unfolding node_geometry
node_geometry-IsNodeGeometry n ns =
    let (le, below, has) = node_loop_least n.slots (n ∷ ns) true n.slots in
    let at : HasSlots (node_loop n.slots (n ∷ ns) true n.slots).1 (n ∷ ns) = elim has [
      | inl e ↦ inl (sym e)
      | inr t ↦ t
    ] in
    let same = node_loop_uniform n.slots (n ∷ ns) true n.slots in
    record {
      sized = length-ones (n ∷ ns);
      counted = refl;
      sets_threads = refl;
      one_each = All-ones (n ∷ ns);
      below = below;
      attained = at;
      warned = (
        λ h.
            subst (λ m. AllSlots m (n ∷ ns))
              (AllSlots-HasSlots _ _ (n ∷ ns) (same.0 (ground arith)).1 at)
              (same.0 (ground arith)).1,
        λ h. let r = same.1 (refl, subst (λ m. AllSlots m (n ∷ ns)) (sym h.0) h) in ground arith,
      );
    }
