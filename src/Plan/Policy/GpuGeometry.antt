-- ===== src/Plan/Policy/GpuGeometry.antt =====
-- What gpuGeometry of internal/plan/taskpolicy.go promises.
use slurm_shim.Common.{
  ℕ, ◌/◌, ◌≤◌, Bool, true, false, List, [], ◌∷◌, map, none, some, ◌≡◌, ◌≢◌, ◌⊎◌, ◌↔◌, inl, inr,
  refl, arith, sym, ◌∙◌, if◌then◌else◌, ok, err, All,
}
use native.Mathlib.Decide.{ℕ_discrete, dec_lt}
use mathlib.Core.Path.{subst}
use mathlib.Core.Bool.{false≢true}
use slurm_shim.Plan.Policy.{
  NodeAlloc, TaskGeometry, no_gpus, heterogeneous_slots_per_gpu, sum, sum_from, gpu_least,
  gpu_uniform, gpu_geometry,
}
use slurm_shim.Plan.Policy.Counts.{sum_from-sum}

-- A device node's slots per device, as the code divides.
abbrev pub ratio : NodeAlloc → ℕ
ratio n = n.slots / n.gpus

-- Some node with a device has the ratio `m`.
abbrev pub Attains : ℕ → List NodeAlloc → Type 0
Attains m [] = ⊥
Attains m (n ∷ ns) = ((n.gpus ≢ 0) × (ratio n ≡ m)) ⊎ Attains m ns

abbrev pub AtLeast : ℕ → List NodeAlloc → Type 0
AtLeast m = All (λ (n : NodeAlloc). (n.gpus ≡ 0) ⊎ (m ≤ ratio n))

abbrev pub AllRatio : ℕ → List NodeAlloc → Type 0
AllRatio m = All (λ (n : NodeAlloc). (n.gpus ≡ 0) ⊎ (ratio n ≡ m))

AtLeast-le : (k m : ℕ) (ns : List NodeAlloc) → k ≤ m → AtLeast m ns → AtLeast k ns
AtLeast-le k m [] h a = tt
AtLeast-le k m (n ∷ ns) h (inl z, rest) = (inl z, AtLeast-le k m ns h rest)
AtLeast-le k m (n ∷ ns) h (inr l, rest) = (inr (omega arith), AtLeast-le k m ns h rest)

-- The first loop, once it has met a ratio `m`.
gpu_least-some :
    (ns : List NodeAlloc) (m : ℕ)
    → (k : ℕ) × (gpu_least ns (some m) ≡ some k) × (k ≤ m) × AtLeast k ns × ((k ≡ m) ⊎ Attains k ns)
unfolding gpu_least
gpu_least-some [] m = (m, refl, omega arith, tt, inl refl)
gpu_least-some (n ∷ ns) m = elim (ℕ_discrete n.gpus 0) [
  | yes z ↦
      let (k, e, le, below, at) = gpu_least-some ns m in
      (k, ground (arith, z), le, (inl z, below), elim at [ inl s ↦ inl s | inr t ↦ inr (inr t) ])
  | no z ↦ elim (dec_lt (ratio n) m) [
    | yes l ↦
        let (k, e, le, below, at) = gpu_least-some ns (ratio n) in
        (
          k,
          ground arith,
          omega arith,
          (inr le, below),
          elim at [ inl s ↦ inr (inl (z, sym s)) | inr t ↦ inr (inr t) ],
        )
    | no l ↦
        let (k, e, le, below, at) = gpu_least-some ns m in
        (
          k,
          ground arith,
          le,
          (inr (omega arith), below),
          elim at [ inl s ↦ inl s | inr t ↦ inr (inr t) ],
        )
  ]
]

-- The first loop from the start: the least ratio, where some node has a device.
gpu_least-none :
    (ns : List NodeAlloc)
    → sum (map (λ (n : NodeAlloc). n.gpus) ns) ≢ 0
    → (k : ℕ) × (gpu_least ns none ≡ some k) × AtLeast k ns × Attains k ns
unfolding gpu_least
gpu_least-none [] h = absurd (h refl)
gpu_least-none (n ∷ ns) h = elim (ℕ_discrete n.gpus 0) [
  | yes z ↦
      let (k, e, below, at) = gpu_least-none ns (omega arith) in
      (k, ground arith, (inl z, below), inr at)
  | no z ↦
      let (k, e, le, below, at) = gpu_least-some ns (ratio n) in
      (k, ground arith, (inr le, below), elim at [ inl s ↦ inl (z, sym s) | inr t ↦ inr t ])
]

-- The second loop, once it has met a ratio `m`, answers whether all ratios are `m`.
gpu_uniform-some :
    (ns : List NodeAlloc) (m : ℕ) (u : Bool)
    → (gpu_uniform ns (some m) u ≡ true) ↔ ((u ≡ true) × AllRatio m ns)
unfolding gpu_uniform
gpu_uniform-some [] m u = (λ h. (h, tt), λ h. h.0)
gpu_uniform-some (n ∷ ns) m u = elim (ℕ_discrete n.gpus 0) [
  | yes z ↦
      let ih = gpu_uniform-some ns m u in
      (
        λ h. let r = ih.0 (ground arith) in (r.0, (inl z, r.1)),
        λ h. let r = ih.1 (h.0, h.1.1) in ground arith,
      )
  | no z ↦ elim (ℕ_discrete (ratio n) m) [
    | yes e ↦
        let ih = gpu_uniform-some ns m u in
        (
          λ h. let r = ih.0 (ground arith) in (r.0, (inr e, r.1)),
          λ h. let r = ih.1 (h.0, h.1.1) in ground arith,
        )
    | no e ↦
        let ih = gpu_uniform-some ns m false in
        (
          λ h. let r = ih.0 (ground arith) in absurd (false≢true r.0),
          λ h. elim h.1.0 [ inl z' ↦ absurd (z z') | inr e' ↦ absurd (e e') ],
        )
  ]
]

AllRatio-Attains : (f k : ℕ) (ns : List NodeAlloc) → AllRatio f ns → Attains k ns → f ≡ k
AllRatio-Attains f k [] a t = absurd t
AllRatio-Attains f k (n ∷ ns) (inl z, rest) (inl (p, q)) = absurd (p z)
AllRatio-Attains f k (n ∷ ns) (inr e, rest) (inl (p, q)) = sym e ∙ q
AllRatio-Attains f k (n ∷ ns) (e, rest) (inr t) = AllRatio-Attains f k ns rest t

-- The second loop from the start: it answers whether every ratio is `k`, one that is attained.
gpu_uniform-none :
    (ns : List NodeAlloc) (k : ℕ) → Attains k ns → (gpu_uniform ns none true ≡ true) ↔ AllRatio k ns
unfolding gpu_uniform
gpu_uniform-none [] k t = absurd t
gpu_uniform-none (n ∷ ns) k t = elim (ℕ_discrete n.gpus 0) [
  | yes z ↦
      let ih = gpu_uniform-none ns k (elim t [ inl (p, q) ↦ absurd (p z) | inr t' ↦ t' ]) in
      (λ h. (inl z, ih.0 (ground arith)), λ h. let r = ih.1 h.1 in ground arith)
  | no z ↦
      let some_lem = gpu_uniform-some ns (ratio n) true in
      (
        λ h.
            let r = some_lem.0 (ground arith) in
            let e : ratio n ≡ k = elim t [
              | inl (p, q) ↦ q
              | inr t' ↦ AllRatio-Attains (ratio n) k ns r.1 t'
            ] in
            (inr e, subst (λ m. AllRatio m ns) e r.1),
        λ h.
            let e : ratio n ≡ k = elim h.0 [ inl z' ↦ absurd (z z') | inr e' ↦ e' ] in
            let r = some_lem.1 (refl, subst (λ m. AllRatio m ns) (sym e) h.1) in ground arith,
      )
]

-- What the gpu policy promises of a geometry: a task for each device of each node, the threads per
-- task are the least slots per device over the nodes that have devices, some node has just that
-- many, and a warning stands there exactly if some node with devices has another ratio.
pub record IsGpuGeometry (ns : List NodeAlloc) (g : TaskGeometry) : Type 0 where
  pub per_device : g.per_node ≡ map (λ (n : NodeAlloc). n.gpus) ns
  pub all_devices : g.ntasks ≡ sum (map (λ (n : NodeAlloc). n.gpus) ns)
  pub sets_threads : g.cpus_per_task_set ≡ true
  pub below : AtLeast g.cpus_per_task ns
  pub attained : Attains g.cpus_per_task ns
  pub warned : (g.warnings ≡ []) ↔ AllRatio g.cpus_per_task ns

gpu_geometry-eq :
    (ns : List NodeAlloc) (k : ℕ)
    → sum (map (λ (n : NodeAlloc). n.gpus) ns) ≢ 0
    → gpu_least ns none ≡ some k
    → gpu_geometry ns
      ≡ ok (record {
        per_node = map (λ (n : NodeAlloc). n.gpus) ns;
        ntasks = sum_from 0 (map (λ (n : NodeAlloc). n.gpus) ns);
        cpus_per_task = k;
        cpus_per_task_set = true;
        warnings = if gpu_uniform ns none true then [] else heterogeneous_slots_per_gpu k ∷ [];
      })
unfolding gpu_geometry
gpu_geometry-eq ns k h e = ground (arith, sum_from-sum 0 (map (λ (n : NodeAlloc). n.gpus) ns))

-- The gpu policy fails exactly if no node has a device. On any other allocation each node gets as
-- many tasks as it has devices, the number of tasks is their sum, and the threads per task are set,
-- to the least slots per device (rounded down) of the nodes with devices, which one of them has; there
-- is no warning exactly if all these nodes have it.
pub gpu_geometry_complete :
    (ns : List NodeAlloc)
    → ((sum (map (λ (n : NodeAlloc). n.gpus) ns) ≡ 0) × (gpu_geometry ns ≡ err no_gpus))
      ⊎ ((g : TaskGeometry) × (gpu_geometry ns ≡ ok g) × IsGpuGeometry ns g)
gpu_geometry_complete ns = elim (ℕ_discrete (sum (map (λ (n : NodeAlloc). n.gpus) ns)) 0) [
  | yes z ↦ inl (
    z,
    unfold gpu_geometry in ground (arith, sum_from-sum 0 (map (λ (n : NodeAlloc). n.gpus) ns)),
  )
  | no z ↦
      let (k, e, below, at) = gpu_least-none ns z in
      inr (
        _,
        gpu_geometry-eq ns k z e,
        record {
          per_device = refl;
          all_devices = omega (arith, sum_from-sum 0 (map (λ (n : NodeAlloc). n.gpus) ns));
          sets_threads = refl;
          below = below;
          attained = at;
          warned = (
            λ h. (gpu_uniform-none ns k at).0 (ground arith),
            λ h. let r = (gpu_uniform-none ns k at).1 h in ground arith,
          );
        },
      )
]

abbrev pub AllSlots : ℕ → List NodeAlloc → Type 0
AllSlots m = All (λ (n : NodeAlloc). n.slots ≡ m)

abbrev pub SlotsAtLeast : ℕ → List NodeAlloc → Type 0
SlotsAtLeast m = All (λ (n : NodeAlloc). m ≤ n.slots)

SlotsAtLeast-le : (k m : ℕ) (ns : List NodeAlloc) → k ≤ m → SlotsAtLeast m ns → SlotsAtLeast k ns
SlotsAtLeast-le k m [] h a = tt
SlotsAtLeast-le k m (n ∷ ns) h (a, rest) = (omega arith, SlotsAtLeast-le k m ns h rest)
