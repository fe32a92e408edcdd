-- ===== src/Plan/Policy/Counts.antt =====
-- The totals of the geometries of internal/plan/taskpolicy.go.
use slurm_shim.Common.{
  ℕ, suc, ◌+◌, List, [], ◌∷◌, map, ◌≡◌, refl, arith, ok-injective, ok, length, ap,
}
use mathlib.Core.Path.{subst}
use slurm_shim.Plan.Policy.{
  Policy, NodeAlloc, TaskGeometry, slot, node, gpu, other, sum, sum_from, slot_geometry,
  node_geometry, gpu_geometry, apply_policy,
}

pub sum_from-sum : (acc : ℕ) (xs : List ℕ) → sum_from acc xs ≡ acc + sum xs
unfolding sum_from
sum_from-sum acc [] = omega arith
sum_from-sum acc (x ∷ xs) = omega (arith, sum_from-sum (acc + x) xs)

sum_ones : (ns : List NodeAlloc) → sum (map (λ _. 1) ns) ≡ length ns
sum_ones [] = refl
sum_ones (n ∷ ns) = omega (arith, sum_ones ns)

length-map : (f : NodeAlloc → ℕ) (ns : List NodeAlloc) → length (map f ns) ≡ length ns
length-map f [] = refl
length-map f (n ∷ ns) = ap suc (length-map f ns)

-- A geometry has a count for each node, and the counts add up to the task count.
abbrev pub Counts : List NodeAlloc → TaskGeometry → Type 0
Counts nodes g = (sum g.per_node ≡ g.ntasks) × (length g.per_node ≡ length nodes)

slot_geometry-Counts : (ns : List NodeAlloc) → Counts ns (slot_geometry ns)
unfolding slot_geometry
slot_geometry-Counts ns = (
  omega (arith, sum_from-sum 0 (map (λ (n : NodeAlloc). n.slots) ns)),
  length-map (λ (n : NodeAlloc). n.slots) ns,
)

node_geometry-Counts : (n : NodeAlloc) (ns : List NodeAlloc) → Counts (n ∷ ns) (node_geometry n ns)
unfolding node_geometry
node_geometry-Counts n ns = (sum_ones (n ∷ ns), length-map (λ _. 1) (n ∷ ns))

gpu_geometry-Counts :
    (ns : List NodeAlloc) {g : TaskGeometry} → gpu_geometry ns ≡ ok g → Counts ns g
unfolding gpu_geometry
gpu_geometry-Counts ns h = ground (
  arith,
  sum_from-sum 0 (map (λ (n : NodeAlloc). n.gpus) ns),
  length-map (λ (n : NodeAlloc). n.gpus) ns,
)

-- Whatever the policy, a geometry that is returned has one count per node, and SLURM_NTASKS is
-- their sum.
pub apply_policy-Counts :
    (p : Policy) (ns : List NodeAlloc) {g : TaskGeometry} → apply_policy p ns ≡ ok g → Counts ns g
unfolding apply_policy
apply_policy-Counts p [] h = cc
apply_policy-Counts slot (n ∷ ns) h =
    subst (Counts (n ∷ ns)) (ok-injective h) (slot_geometry-Counts (n ∷ ns))
apply_policy-Counts node (n ∷ ns) h =
    subst (Counts (n ∷ ns)) (ok-injective h) (node_geometry-Counts n ns)
apply_policy-Counts gpu (n ∷ ns) h = gpu_geometry-Counts (n ∷ ns) h
apply_policy-Counts (other x) (n ∷ ns) h = cc
