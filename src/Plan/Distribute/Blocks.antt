-- ===== src/Plan/Distribute/Blocks.antt =====
-- What distribute of internal/plan/place.go promises: block order and the devices of each rank.
use slurm_shim.Common.{
  ℕ, zero, suc, ◌+◌, ◌*◌, ◌≤◌, ◌<◌, Bool, List, [], ◌∷◌, ◌++◌, map, ◌≡◌, refl, sym, ap, ◌∙◌, ◌&&◌,
  err-ne-ok, arith, ltb, Bool-cases, inl, inr, Result, ok, err, ok-injective, length, get_or, All,
  String, Option, none, some, some_inj, false, ◌≢◌,
}
use mathlib.Core.Path.{ap₂, subst}
use slurm_shim.Common.Int.{pos}
use slurm_shim.Text.Decimal.{max_int}
use slurm_shim.Text.Int64.{to_int, to_int-fits, int_lt}
use slurm_shim.Plan.Types.{
  StepNode, PlacedRank, Warning, PlaceError, gpus_exceed_grant, slice_panic,
}
use slurm_shim.Plan.Devices.{assign_devices}
use slurm_shim.Plan.Devices.Shares.{assign_devices_slices, assign_devices_total}
use slurm_shim.Plan.Distribute.{place_locals, place_node, distribute_from, distribute, append_ranks}

-- Rank number, node index and local rank of `n` ranks on one node.
abbrev pub block : ℕ → ℕ → ℕ → ℕ → List (ℕ × ℕ × ℕ)
block zero rank ni local = []
block (suc n) rank ni local = (rank, ni, local) ∷ block n (rank + 1) ni (local + 1)

-- Block order: the ranks of the first node, then those of the second, with running rank numbers.
abbrev pub blocks : ℕ → ℕ → List ℕ → List (ℕ × ℕ × ℕ)
blocks rank ni [] = []
blocks rank ni (c ∷ cs) = block c rank ni 0 ++ blocks (rank + c) (ni + 1) cs

abbrev pub position : PlacedRank → ℕ × ℕ × ℕ
position r = (r.rank, r.step_node_index, r.local)

map_append :
    {B : Type 0} (f : PlacedRank → B) (xs ys : List PlacedRank)
    → map f (xs ++ ys) ≡ map f xs ++ map f ys
map_append f [] ys = refl
map_append f (x ∷ xs) ys = ap (λ r. f x ∷ r) (map_append f xs ys)

place_locals-block :
    (n rank ni local cpt : ℕ) (per_rank : List (List String))
    → map position (place_locals n rank ni local cpt per_rank) ≡ block n rank ni local
unfolding place_locals
place_locals-block zero rank ni local cpt pr = refl
place_locals-block (suc n) rank ni local cpt pr =
    ap (λ r. (rank, ni, local) ∷ r) (place_locals-block n (rank + 1) ni (local + 1) cpt pr)

append_ranks-ok :
    (placed : List PlacedRank) (m : Result PlaceError (List PlacedRank × List Warning))
    (r : List PlacedRank × List Warning)
    → append_ranks placed m ≡ ok r
    → (ranks : List PlacedRank) × (m ≡ ok (ranks, r.1)) × (r.0 ≡ placed ++ ranks)
unfolding append_ranks
append_ranks-ok placed (err e) r h = cc
append_ranks-ok placed (ok (ranks, ws)) r h =
    let e = ok-injective h in (ranks, ap (λ p. ok (ranks, p.1)) e, ap (λ p. p.0) (sym e))

place_node-ok :
    (assigned : Option (List (List String) × Bool)) (c rank ni cpt : ℕ)
    (m : Result PlaceError (List PlacedRank × List Warning)) (r : List PlacedRank × List Warning)
    → place_node assigned c rank ni cpt m ≡ ok r
    → (sets : List (List String)) × (shared : Bool) × (ranks : List PlacedRank) × (assigned
        ≡ some (sets, shared))
      × (m ≡ ok (ranks, r.1))
      × (r.0 ≡ place_locals c rank ni 0 cpt sets ++ ranks)
unfolding place_node
place_node-ok none c rank ni cpt m r h = cc
place_node-ok (some (sets, shared)) c rank ni cpt m r h =
    let (ranks, e, e') = append_ranks-ok _ m r h in (sets, shared, ranks, refl, e, e')

-- The inversion of one successful round.
distribute_from_cons :
    (ni rank cpt g : ℕ) (auto explicit : Bool) (warns : List Warning) (n : StepNode)
    (nodes : List StepNode) (c : ℕ) (counts : List ℕ) (r : List PlacedRank × List Warning)
    → distribute_from ni rank cpt g auto explicit warns (n ∷ nodes) (c ∷ counts) ≡ ok r
    → (sets : List (List String)) × (shared : Bool) × (ws : List Warning) × (ranks : List
        PlacedRank)
      × (assign_devices n.gpus c g auto ≡ some (sets, shared))
      × (distribute_from (ni + 1) (rank + c) cpt g auto explicit ws nodes counts ≡ ok (ranks, r.1))
      × (r.0 ≡ place_locals c rank ni 0 cpt sets ++ ranks)
      × ((0 < g) → g * c ≤ max_int → g * c ≤ length n.gpus)
unfolding distribute_from
distribute_from_cons ni rank cpt g auto explicit warns n nodes c counts r h =
    elim (Bool-cases (ltb 0 g && int_lt (pos (length n.gpus)) (to_int (g * c)))) [
      | inl over ↦ absurd (err-ne-ok (rw over at h))
      | inr fits ↦
          let (sets, shared, ranks, answer, e, e') =
            place_node-ok (assign_devices n.gpus c g auto) c rank ni cpt _ r (rw fits at h) in
          (
            sets,
            shared,
            _,
            ranks,
            answer,
            e,
            e',
            λ hg small.
                let exact : (ltb 0 g && ltb (length n.gpus) (g * c)) ≡ false =
                  rw (to_int-fits (g * c) small) at fits in
                ground (arith, exact),
          )
    ]

-- Ranks are numbered in block order, the ranks of each node in a row.
distribute_from-blocks :
    (ni rank cpt g : ℕ) (auto explicit : Bool) (warns : List Warning) (nodes : List StepNode)
    (counts : List ℕ) (r : List PlacedRank × List Warning)
    → length counts ≡ length nodes
    → distribute_from ni rank cpt g auto explicit warns nodes counts ≡ ok r
    → map position r.0 ≡ blocks rank ni counts
distribute_from-blocks ni rank cpt g auto explicit warns [] [] r l h =
    unfold distribute_from in ap (λ p. map position p.0) (sym (ok-injective h))
distribute_from-blocks ni rank cpt g auto explicit warns [] (c ∷ cs) r l h = absurd (omega arith)
distribute_from-blocks ni rank cpt g auto explicit warns (n ∷ nodes) [] r l h = absurd (omega arith)
distribute_from-blocks ni rank cpt g auto explicit warns (n ∷ nodes) (c ∷ cs) r l h =
    let (sets, shared, ws, ranks, answer, e, whole, fits) =
      distribute_from_cons ni rank cpt g auto explicit warns n nodes c cs r h in
    let ih =
      distribute_from-blocks (ni + 1) (rank + c) cpt g auto explicit ws nodes cs (ranks, r.1)
        (omega arith) e in
    ap (map position) whole
    ∙ map_append position (place_locals c rank ni 0 cpt sets) ranks
    ∙ ap₂ ◌++◌ (place_locals-block c rank ni 0 cpt sets) ih

pub distribute-blocks :
    (cpt g : ℕ) (auto explicit : Bool) (nodes : List StepNode) (counts : List ℕ)
    (r : List PlacedRank × List Warning)
    → length counts ≡ length nodes
    → distribute nodes counts cpt g auto explicit ≡ ok r
    → map position r.0 ≡ blocks 0 0 counts
unfolding distribute
distribute-blocks cpt g auto explicit nodes counts r l h =
    distribute_from-blocks 0 0 cpt g auto explicit [] nodes counts r l h

All-get_or :
    (pr : List (List String)) (i g : ℕ)
    → All (λ (d : List String). length d ≡ g) pr
    → i < length pr
    → length (get_or pr i []) ≡ g
All-get_or [] i g a h = absurd (omega arith)
All-get_or (d ∷ pr) zero g (e, a) h = e
All-get_or (d ∷ pr) (suc i) g (e, a) h = All-get_or pr i g a (omega arith)

place_locals-gpus :
    (n rank ni local cpt g : ℕ) (pr : List (List String))
    → All (λ (d : List String). length d ≡ g) pr
    → local + n ≤ length pr
    → All (λ (k : PlacedRank). length k.gpus ≡ g) (place_locals n rank ni local cpt pr)
unfolding place_locals
place_locals-gpus zero rank ni local cpt g pr a h = tt
place_locals-gpus (suc n) rank ni local cpt g pr a h = (
  All-get_or pr local g a (omega arith),
  place_locals-gpus n (rank + 1) ni (local + 1) cpt g pr a (omega arith),
)

node_gpus :
    (c rank ni cpt g : ℕ) (auto : Bool) (n : StepNode) (sets : List (List String)) (shared : Bool)
    → assign_devices n.gpus c g auto ≡ some (sets, shared)
    → 0 < g
    → g * c ≤ max_int
    → g * c ≤ length n.gpus
    → All (λ (k : PlacedRank). length k.gpus ≡ g) (place_locals c rank ni 0 cpt sets)
node_gpus zero rank ni cpt g auto n sets shared answer hg small fits = unfold place_locals in tt
node_gpus (suc c) rank ni cpt g auto n sets shared answer hg small fits =
    let (slices, e, count, width) =
      assign_devices_slices n.gpus (suc c) g auto (omega arith) hg small fits in
    let same : slices ≡ sets = ap (λ p. p.0) (some_inj (sym e ∙ answer)) in
    place_locals-gpus (suc c) rank ni 0 cpt g sets
      (subst (All (λ (d : List String). length d ≡ g)) same width)
      (omega (arith, count, ap length same))

All-append :
    (P : PlacedRank → Type 0) (xs ys : List PlacedRank) → All P xs → All P ys → All P (xs ++ ys)
All-append P [] ys a b = b
All-append P (x ∷ xs) ys (p, a) b = (p, All-append P xs ys a b)

-- With --gpus-per-task every rank has that many devices.
distribute_from-gpus :
    (ni rank cpt g : ℕ) (auto explicit : Bool) (warns : List Warning) (nodes : List StepNode)
    (counts : List ℕ) (r : List PlacedRank × List Warning)
    → 0 < g
    → All (λ (c : ℕ). g * c ≤ max_int) counts
    → distribute_from ni rank cpt g auto explicit warns nodes counts ≡ ok r
    → All (λ (k : PlacedRank). length k.gpus ≡ g) r.0
distribute_from-gpus ni rank cpt g auto explicit warns [] counts r hg small h =
    unfold distribute_from in
    subst (λ p. All (λ (k : PlacedRank). length k.gpus ≡ g) p.0) (ok-injective h) tt
distribute_from-gpus ni rank cpt g auto explicit warns (n ∷ nodes) [] r hg small h =
    unfold distribute_from in
    subst (λ p. All (λ (k : PlacedRank). length k.gpus ≡ g) p.0) (ok-injective h) tt
distribute_from-gpus ni rank cpt g auto explicit warns (n ∷ nodes) (c ∷ cs) r hg (here, small) h =
    let (sets, shared, ws, ranks, answer, e, whole, fits) =
      distribute_from_cons ni rank cpt g auto explicit warns n nodes c cs r h in
    let ih =
      distribute_from-gpus (ni + 1) (rank + c) cpt g auto explicit ws nodes cs (ranks, r.1) hg small
        e in
    subst (All (λ (k : PlacedRank). length k.gpus ≡ g)) (sym whole) (
      All-append _ _ ranks
        (node_gpus c rank ni cpt g auto n sets shared answer hg here (fits hg here)) ih)

pub distribute-gpus :
    (cpt g : ℕ) (auto explicit : Bool) (nodes : List StepNode) (counts : List ℕ)
    (r : List PlacedRank × List Warning)
    → 0 < g
    → All (λ (c : ℕ). g * c ≤ max_int) counts
    → distribute nodes counts cpt g auto explicit ≡ ok r
    → All (λ (k : PlacedRank). length k.gpus ≡ g) r.0
unfolding distribute
distribute-gpus cpt g auto explicit nodes counts r hg small h =
    distribute_from-gpus 0 0 cpt g auto explicit [] nodes counts r hg small h

exceeds-slice_panic :
    (g n : ℕ) (host : String)
    → ◌≢◌ {A = Result PlaceError (List PlacedRank × List Warning)}
        (err (gpus_exceed_grant g n host))
        (err slice_panic)
exceeds-slice_panic g n host e = cc

append_ranks-slice_panic :
    (placed : List PlacedRank) (m : Result PlaceError (List PlacedRank × List Warning))
    → m ≢ err slice_panic
    → append_ranks placed m ≢ err slice_panic
unfolding append_ranks
append_ranks-slice_panic placed (err e) fine h = fine h
append_ranks-slice_panic placed (ok r) fine h = cc

place_node-slice_panic :
    (c rank ni cpt : ℕ) (answer : List (List String) × Bool)
    (m : Result PlaceError (List PlacedRank × List Warning))
    → m ≢ err slice_panic
    → place_node (some answer) c rank ni cpt m ≢ err slice_panic
unfolding place_node
place_node-slice_panic c rank ni cpt (sets, shared) m fine =
    append_ranks-slice_panic (place_locals c rank ni 0 cpt sets) m fine

-- No panic where the devices asked for on each node are an `int`.
distribute_from-slice_panic :
    (ni rank cpt g : ℕ) (auto explicit : Bool) (warns : List Warning) (nodes : List StepNode)
    (counts : List ℕ)
    → All (λ (c : ℕ). 0 < c) counts
    → All (λ (c : ℕ). g * c ≤ max_int) counts
    → distribute_from ni rank cpt g auto explicit warns nodes counts ≢ err slice_panic
unfolding distribute_from
distribute_from-slice_panic ni rank cpt g auto explicit warns [] counts busy small h = cc
distribute_from-slice_panic ni rank cpt g auto explicit warns (n ∷ nodes) [] busy small h = cc
distribute_from-slice_panic ni rank cpt g auto explicit warns (n ∷ nodes) (c ∷ cs) (some_rank, busy)
      (here, small) h =
    elim (Bool-cases (ltb 0 g && int_lt (pos (length n.gpus)) (to_int (g * c)))) [
      | inl over ↦ absurd (exceeds-slice_panic g (length n.gpus) n.host (rw over at h))
      | inr fits ↦
          let (answer, e) = assign_devices_total n.gpus c g auto some_rank here in
          place_node-slice_panic c rank ni cpt answer _
            (distribute_from-slice_panic (ni + 1) (rank + c) cpt g auto explicit _ nodes cs busy
              small)
            (rw (fits, e) at h)
    ]

pub distribute-slice_panic :
    (cpt g : ℕ) (auto explicit : Bool) (nodes : List StepNode) (counts : List ℕ)
    → All (λ (c : ℕ). 0 < c) counts
    → All (λ (c : ℕ). g * c ≤ max_int) counts
    → distribute nodes counts cpt g auto explicit ≢ err slice_panic
unfolding distribute
distribute-slice_panic cpt g auto explicit nodes counts busy small =
    distribute_from-slice_panic 0 0 cpt g auto explicit [] nodes counts busy small
