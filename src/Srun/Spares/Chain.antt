-- ===== src/Srun/Spares/Chain.antt =====
-- The chain lost -> spare -> spare of takeSpare (internal/cli/srun/elastic.go) ends at a node.
pub mod Growth
use slurm_shim.Common.{
  ℕ, zero, suc, ◌+◌, ◌<◌, ◌≤◌, Bool, true, false, List, [], ◌∷◌, ◌++◌, Option, none, some, String,
  str_eq, eq_iff, if◌then◌else◌, ◌≡◌, ◌≢◌, refl, sym, ap, ◌∙◌, subst, arith, get_elem?, Bool-cases,
  Option-cases, ◌⊎◌, inl, inr, some_inj, length, if-true, if-false,
}
use slurm_shim.Srun.Spares.{LayoutNode, Swap, node_or, first_node, last_swap, follow, set_node}
use slurm_shim.Srun.Spares.Counts.{
  IsAt, is_host, host_count, host_count-set_node, count-IsAt, is_host-le_count, is_host-same,
  str_eq_refl,
}

abbrev pub IsNamed : String → Type 0
IsNamed host = str_eq host "" ≡ false

pub first_node-listed :
    (ns : List LayoutNode) (h : String)
    → 0 < host_count h ns
    → (n : LayoutNode) × (first_node ns h ≡ some n)
unfolding first_node host_count
first_node-listed [] h c = ground (arith, c)
first_node-listed (n ∷ ns) h c = elim (Bool-cases (str_eq n.host h)) [
  | inl same ↦ (n, if-true (str_eq n.host h) (some n) (first_node ns h) same)
  | inr other ↦
      let (m, found) = first_node-listed ns h (ground (arith, c, other)) in
      (m, if-false (str_eq n.host h) (some n) (first_node ns h) other ∙ found)
]

pub count-first_node :
    (ns : List LayoutNode) (h : String) (n : LayoutNode)
    → first_node ns h ≡ some n
    → (0 < host_count h ns) × (n.host ≡ h)
unfolding first_node host_count
count-first_node [] h n e = cc
count-first_node (m ∷ ns) h n e = elim (Bool-cases (str_eq m.host h)) [
  | inl same ↦
      let found : m ≡ n =
        some_inj (sym (if-true (str_eq m.host h) (some m) (first_node ns h) same) ∙ e) in
      (ground (arith, same), ap (λ (k : LayoutNode). k.host) (sym found) ∙ (eq_iff m.host h).0 same)
  | inr other ↦
      let further =
        count-first_node ns h n
          (sym (if-false (str_eq m.host h) (some m) (first_node ns h) other) ∙ e) in
      (ground (arith, further.0), further.1)
]

pub last_swap-append_same :
    (sws : List Swap) (sw : Swap) (next : String)
    → last_swap (sws ++ (sw ∷ [])) sw.lost next ≡ sw.spare
unfolding last_swap
last_swap-append_same [] sw next =
    if-true (str_eq sw.lost sw.lost) sw.spare next ((eq_iff sw.lost sw.lost).1 refl)
last_swap-append_same (w ∷ sws) sw next =
    last_swap-append_same sws sw (if str_eq w.lost sw.lost then w.spare else next)

pub last_swap-append_other :
    (sws : List Swap) (sw : Swap) (h next : String)
    → str_eq sw.lost h ≡ false
    → last_swap (sws ++ (sw ∷ [])) h next ≡ last_swap sws h next
unfolding last_swap
last_swap-append_other [] sw h next e = if-false (str_eq sw.lost h) sw.spare next e
last_swap-append_other (w ∷ sws) sw h next e =
    last_swap-append_other sws sw h (if str_eq w.lost h then w.spare else next) e

-- One round of the chain, by where the next host stands.
pub follow-here :
    (k : ℕ) (ns : List LayoutNode) (sws : List Swap) (h g : String) (n : LayoutNode)
    → last_swap sws h "" ≡ g
    → IsNamed g
    → first_node ns g ≡ some n
    → follow (suc k) ns sws h ≡ some n
unfolding follow
follow-here k ns sws h g n next named found = rw next (rw named (rw found refl))

pub follow-further :
    (k : ℕ) (ns : List LayoutNode) (sws : List Swap) (h g : String) (n : LayoutNode)
    → last_swap sws h "" ≡ g
    → IsNamed g
    → first_node ns g ≡ none
    → follow k ns sws g ≡ some n
    → follow (suc k) ns sws h ≡ some n
unfolding follow
follow-further k ns sws h g n next named gone further = rw next (rw named (rw gone further))

-- The next host of a chain that ends at a node has a name, and stands there or leads there.
pub follow-inverse :
    (k : ℕ) (ns : List LayoutNode) (sws : List Swap) (h : String) (n : LayoutNode)
    → follow (suc k) ns sws h ≡ some n
    → IsNamed (last_swap sws h "")
      × ((first_node ns (last_swap sws h "") ≡ some n)
          ⊎ ((first_node ns (last_swap sws h "") ≡ none)
              × (follow k ns sws (last_swap sws h "") ≡ some n)))
unfolding follow
follow-inverse k ns sws h n e =
    chosen (str_eq (last_swap sws h "") "") (first_node ns (last_swap sws h ""))
      (follow k ns sws (last_swap sws h "")) e
  where
    chosen :
        (b : Bool) (here further : Option LayoutNode)
        → (if b then none else node_or here further) ≡ some n
        → (b ≡ false) × ((here ≡ some n) ⊎ ((here ≡ none) × (further ≡ some n)))
    chosen true here further e = cc
    chosen false none further e = (refl, inr (refl, e))
    chosen false (some m) further e = (refl, inl e)

pub zero-or-more : (k : ℕ) → (k ≡ 0) ⊎ (0 < k)
zero-or-more zero = inl refl
zero-or-more (suc k) = inr (omega arith)

-- Where a chain ends, for any number of rounds.
pub follow-listed :
    (k : ℕ) (ns : List LayoutNode) (sws : List Swap) (h : String) (n : LayoutNode)
    → follow k ns sws h ≡ some n
    → 0 < host_count n.host ns
unfolding follow
follow-listed zero ns sws h n e = cc
follow-listed (suc k) ns sws h n e = elim (follow-inverse k ns sws h n e).1 [
  | inl here ↦
      let (listed, same) = count-first_node ns (last_swap sws h "") n here in
      subst (λ g. 0 < host_count g ns) (sym same) listed
  | inr (gone, further) ↦ follow-listed k ns sws (last_swap sws h "") n further
]

pub first_node-unlisted :
    (ns : List LayoutNode) (h : String) → host_count h ns ≡ 0 → first_node ns h ≡ none
first_node-unlisted ns h c = elim (Option-cases (first_node ns h)) [
  | inl gone ↦ gone
  | inr (n, found) ↦
      let listed = (count-first_node ns h n found).0 in absurd (omega (arith, listed, c))
]

pub unlisted-first_node :
    (ns : List LayoutNode) (h : String) → first_node ns h ≡ none → host_count h ns ≡ 0
unlisted-first_node ns h gone = elim (zero-or-more (host_count h ns)) [
  | inl e ↦ e
  | inr more ↦ let (n, found) = first_node-listed ns h more in cc
]
