-- ===== src/Srun/Spares/Counts.antt =====
-- Where a host stands in the job's layout, for takeSpare of internal/cli/srun/elastic.go.
use slurm_shim.Common.{
  ℕ, zero, suc, ◌+◌, ◌≤◌, true, List, [], ◌∷◌, ◌++◌, Option, none, some, String, str_eq, eq_iff,
  if◌then◌else◌, ◌≡◌, refl, sym, ap, ◌∙◌, subst, arith, get_elem?, Bool-cases, if-true, if-false,
  ◌≢◌, ◌<◌, ◌⊎◌, inl, inr, some_inj,
}
use slurm_shim.Srun.Spares.{LayoutNode, last_index, set_node}

-- How often a host stands among the nodes, and among the names.
abbrev pub is_host : String → LayoutNode → ℕ
is_host h n = if str_eq n.host h then 1 else 0

unfoldable pub host_count : String → List LayoutNode → ℕ
host_count h [] = 0
host_count h (n ∷ ns) = is_host h n + host_count h ns

unfoldable pub name_count : String → List String → ℕ
name_count h [] = 0
name_count h (n ∷ ns) = (if str_eq n h then 1 else 0) + name_count h ns

pub name_count-append :
    (h : String) (xs ys : List String) → name_count h (xs ++ ys) ≡ name_count h xs + name_count h ys
unfolding name_count
name_count-append h [] ys = omega arith
name_count-append h (x ∷ xs) ys = omega (arith, name_count-append h xs ys)

pub host_count-set_node :
    (h : String) (ns : List LayoutNode) (k : ℕ) (m s : LayoutNode)
    → get_elem? ns k ≡ some m
    → host_count h (set_node ns k s) + is_host h m ≡ host_count h ns + is_host h s
unfolding host_count set_node
host_count-set_node h [] k m s e = cc
host_count-set_node h (n ∷ ns) zero m s e = rw (some_inj e) (omega arith)
host_count-set_node h (n ∷ ns) (suc k) m s e = omega (arith, host_count-set_node h ns k m s e)

-- The node at an index is the host's.
abbrev pub IsAt : List LayoutNode → String → ℕ → Type 0
IsAt ns host k = (m : LayoutNode) × ((get_elem? ns k ≡ some m) × (str_eq m.host host ≡ true))

abbrev pub IsFound : List LayoutNode → String → ℕ → Option ℕ → ℕ → Type 0
IsFound ns host i found idx = (found ≡ some idx) ⊎ ((k : ℕ) × ((idx ≡ i + k) × IsAt ns host k))

last_index-IsFound :
    (ns : List LayoutNode) (host : String) (i : ℕ) (found : Option ℕ) (idx : ℕ)
    → last_index ns host i found ≡ some idx
    → IsFound ns host i found idx
unfolding last_index
last_index-IsFound [] host i found idx e = inl e
last_index-IsFound (n ∷ ns) host i found idx e =
    elim (last_index-IsFound ns host (suc i) (if str_eq n.host host then some i else found) idx e) [
      | inr (k, further) ↦ inr (suc k, (omega (arith, further.0), further.1))
      | inl e ↦ here e
    ]
  where
    here :
        (if str_eq n.host host then some i else found) ≡ some idx
        → IsFound (n ∷ ns) host i found idx
    here e = elim (Bool-cases (str_eq n.host host)) [
      | inl same ↦
          let at : i ≡ idx =
            some_inj (sym (if-true (str_eq n.host host) (some i) found same) ∙ e) in
          inr (0, (omega (arith, at), (n, (refl, same))))
      | inr other ↦ inl (sym (if-false (str_eq n.host host) (some i) found other) ∙ e)
    ]

-- The index that takeSpare finds is one of the lost host.
pub last_index-IsAt :
    (ns : List LayoutNode) (host : String) (idx : ℕ)
    → last_index ns host 0 none ≡ some idx
    → IsAt ns host idx
last_index-IsAt ns host idx e = elim (last_index-IsFound ns host 0 none idx e) [
  | inl none_found ↦ cc
  | inr (k, (at, here)) ↦ subst (IsAt ns host) (omega (arith, at)) here
]

-- A host that stands among the nodes has an index.
pub last_index-some :
    (ns : List LayoutNode) (host : String) (i j : ℕ) → last_index ns host i (some j) ≢ none
unfolding last_index
last_index-some [] host i j = λ e. cc
last_index-some (n ∷ ns) host i j = elim (Bool-cases (str_eq n.host host)) [
  | inl same ↦ rw same (last_index-some ns host (suc i) i)
  | inr other ↦ rw other (last_index-some ns host (suc i) j)
]

pub last_index-listed :
    (ns : List LayoutNode) (host : String) (i : ℕ)
    → 0 < host_count host ns
    → last_index ns host i none ≢ none
unfolding last_index host_count
last_index-listed [] host i h = ground (arith, h)
last_index-listed (n ∷ ns) host i h = elim (Bool-cases (str_eq n.host host)) [
  | inl same ↦ rw same (last_index-some ns host (suc i) i)
  | inr other ↦ rw other (last_index-listed ns host (suc i) (ground (arith, h, other)))
]

pub count-IsAt :
    (ns : List LayoutNode) (host : String) (k : ℕ) → IsAt ns host k → 0 < host_count host ns
unfolding host_count
count-IsAt [] host k (m, (e, h)) = cc
count-IsAt (n ∷ ns) host zero (m, (e, h)) =
    let same : n ≡ m = some_inj e in rw same (rw h (omega arith))
count-IsAt (n ∷ ns) host (suc k) (m, (e, h)) = omega (arith, count-IsAt ns host k (m, (e, h)))

pub is_host-le_count :
    (h : String) (ns : List LayoutNode) (k : ℕ) (m : LayoutNode)
    → get_elem? ns k ≡ some m
    → is_host h m ≤ host_count h ns
unfolding host_count
is_host-le_count h [] k m e = cc
is_host-le_count h (n ∷ ns) zero m e = rw (some_inj e) (omega arith)
is_host-le_count h (n ∷ ns) (suc k) m e = omega (arith, is_host-le_count h ns k m e)

pub is_host-same :
    (h lost : String) (m : LayoutNode)
    → m.host ≡ lost
    → is_host h m ≡ (if str_eq lost h then 1 else 0)
is_host-same h lost m same = ap (λ n. if str_eq n h then 1 else 0) same

pub str_eq_refl : (h : String) → str_eq h h ≡ true
str_eq_refl h = (eq_iff h h).1 refl
