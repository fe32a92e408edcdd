-- ===== src/Plan/Select/Choice.antt =====
-- The nodes that selectNodes of internal/plan/place.go chooses.
use slurm_shim.Common.{
  ℕ, zero, suc, ◌+◌, ◌≤◌, ◌<◌, Bool, true, false, List, [], ◌∷◌, some, ◌≡◌, ◌≢◌, ◌⊎◌, refl, sym, ap,
  ◌∙◌, arith, ltb, ok, ok-injective, err-ne-ok, length, get_elem?, take, All, String, str_eq,
  eq_iff, Bool-cases, Option-cases, some_inj, inl, inr, ◌==◌, ltb-eq_true,
}
use mathlib.Core.Path.{subst}
use mathlib.Core.Bool.{false≢true}
use native.Mathlib.Nat.{zero-add}
use slurm_shim.Plan.Types.{Node, Layout, StepRequest, StepNode}
use slurm_shim.Plan.Select.{
  contains, remove, to_step, listed_loop, find_host, drop_host, by_host, order_loop, in_list_order,
  select_listed, usable_from, avoid_master, select_unlisted, select_by, listed_result,
  unlisted_result, select_nodes,
}

-- The step node stands for a node of `ns`, the first of which has index `i`.
abbrev From : ℕ → List Node → StepNode → Type 0
From i ns s = (j : ℕ) × (n : Node) × (get_elem? ns j ≡ some n) × (s ≡ to_step (i + j) n)

From-next :
    (i : ℕ) (n : Node) (ns : List Node) (s : StepNode) → From (i + 1) ns s → From i (n ∷ ns) s
From-next i n ns s (j, m, e, q) =
    let k : i + 1 + j ≡ i + suc j = omega arith in (suc j, m, e, q ∙ ap (λ z. to_step z m) k)

From-here : (i : ℕ) (n : Node) (ns : List Node) → From i (n ∷ ns) (to_step i n)
From-here i n ns = let k : i ≡ i + 0 = omega arith in (0, n, refl, ap (λ z. to_step z n) k)

-- A node that the request allows: of the list, if there is one, and not excluded.
abbrev Allowed : List String → StepNode → Type 0
Allowed excluded s = contains excluded s.host ≡ false

abbrev Listed : List String → StepNode → Type 0
Listed list s = contains list s.host ≡ true

All-map :
    (P Q : StepNode → Type 0)
    → ((s : StepNode) → P s → Q s)
    → (ss : List StepNode) → All P ss
    → All Q ss
All-map P Q f [] a = tt
All-map P Q f (s ∷ ss) (p, a) = (f s p, All-map P Q f ss a)

contains-remove :
    (h x : String) (l : List String) → contains (remove h l) x ≡ true → contains l x ≡ true
unfolding contains remove
contains-remove h x [] e = e
contains-remove h x (y ∷ l) e = ground (arith, eq_iff y h, eq_iff y x, contains-remove h x l)

pub contains-remove_ne :
    (h x : String) (l : List String) → h ≢ x → contains l x ≡ true → contains (remove h l) x ≡ true
unfolding contains remove
contains-remove_ne h x [] d e = e
contains-remove_ne h x (y ∷ l) d e =
    ground (arith, eq_iff y h, eq_iff y x, contains-remove_ne h x l d)

abbrev Good : List String → List String → ℕ → List Node → StepNode → Type 0
Good list excluded i ns s = From i ns s × Allowed excluded s × Listed list s

listed_loop-Good :
    (excluded : List String) (i : ℕ) (ns : List Node) (want : List String)
    → All (Good want excluded i ns) (listed_loop excluded i ns want).0
unfolding listed_loop to_step
listed_loop-Good excluded i [] want = tt
listed_loop-Good excluded i (n ∷ ns) want = elim (Bool-cases (contains want n.host)) [
  | inr skip ↦
      rw (skip, listed_loop)
        (All-map _ _ (λ s g. (From-next i n ns s g.0, g.1, g.2)) _
          (listed_loop-Good excluded (i + 1) ns want))
  | inl met ↦
      let later =
        All-map (Good (remove n.host want) excluded (i + 1) ns) (Good want excluded i (n ∷ ns))
          (λ s g. (From-next i n ns s g.0, g.1, contains-remove n.host s.host want g.2)) _
          (listed_loop-Good excluded (i + 1) ns (remove n.host want)) in
      elim (Bool-cases (contains excluded n.host)) [
        | inl out ↦ rw (met, out, listed_loop) later
        | inr keep ↦ rw (met, keep, listed_loop) ((From-here i n ns, keep, met), later)
      ]
]

All-drop_host :
    (P : StepNode → Type 0) (h : String) (m : List StepNode) → All P m → All P (drop_host h m)
unfolding drop_host
All-drop_host P h [] a = tt
All-drop_host P h (n ∷ m) (p, a) = elim (Bool-cases (str_eq n.host h)) [
  | inl e ↦ rw e (All-drop_host P h m a)
  | inr e ↦ rw e (p, All-drop_host P h m a)
]

All-by_host :
    (P : StepNode → Type 0) (ns m : List StepNode) → All P ns → All P m → All P (by_host ns m)
unfolding by_host
All-by_host P [] m a b = b
All-by_host P (n ∷ ns) m (p, a) b =
    All-by_host P ns (n ∷ drop_host n.host m) a (p, All-drop_host P n.host m b)

find_host-P :
    (P : StepNode → Type 0) (h : String) (m : List StepNode) (n : StepNode)
    → All P m
    → find_host h m ≡ some n
    → P n
unfolding find_host
find_host-P P h [] n a e = cc
find_host-P P h (x ∷ m) n (p, a) e = elim (Bool-cases (str_eq x.host h)) [
  | inl here ↦ subst P (some_inj (rw here at e)) p
  | inr there ↦ find_host-P P h m n a (rw there at e)
]

All-order_loop :
    (P : StepNode → Type 0) (m : List StepNode) (list : List String)
    → All P m
    → All P (order_loop m list)
unfolding order_loop
All-order_loop P m [] a = tt
All-order_loop P m (h ∷ list) a = elim (Option-cases (find_host h m)) [
  | inl e ↦ rw (e, order_loop) (All-order_loop P m list a)
  | inr (n, e) ↦
      rw (e, order_loop)
        (find_host-P P h m n a e, All-order_loop P (drop_host h m) list (All-drop_host P h m a))
]

usable_from-Good :
    (excluded : List String) (i : ℕ) (ns : List Node)
    → All (λ (s : StepNode). From i ns s × Allowed excluded s) (usable_from excluded i ns)
unfolding usable_from to_step
usable_from-Good excluded i [] = tt
usable_from-Good excluded i (n ∷ ns) =
    let later =
      All-map (λ (s : StepNode). From (i + 1) ns s × Allowed excluded s)
        (λ (s : StepNode). From i (n ∷ ns) s × Allowed excluded s)
        (λ s g. (From-next i n ns s g.0, g.1)) _ (usable_from-Good excluded (i + 1) ns) in
    elim (Bool-cases (contains excluded n.host)) [
      | inl out ↦ rw out later
      | inr keep ↦ rw keep ((From-here i n ns, keep), later)
    ]

All-take : (P : StepNode → Type 0) (k : ℕ) (ss : List StepNode) → All P ss → All P (take k ss)
All-take P zero ss a = tt
All-take P (suc k) [] a = tt
All-take P (suc k) (s ∷ ss) (p, a) = (p, All-take P k ss a)

All-avoid_master :
    (P : StepNode → Type 0) (b : Bool) (ss : List StepNode) → All P ss → All P (avoid_master b ss)
unfolding avoid_master
All-avoid_master P false ss a = a
All-avoid_master P true [] a = a
All-avoid_master P true (s ∷ []) a = a
All-avoid_master P true (s ∷ t ∷ ss) a = elim (Bool-cases (s.layout_index == 0)) [
  | inl e ↦ rw e a.1
  | inr e ↦ rw e a
]

-- What every chosen node is: a node of the allocation under its own index, with that node's host,
-- slots and devices, that is not excluded and, where a node list is given, stands on it.
pub record IsChoice (lay : Layout) (req : StepRequest) (s : StepNode) : Type 0 where
  pub allocated :
      (n : Node) × (get_elem? lay.nodes s.layout_index ≡ some n) × (s ≡ to_step s.layout_index n)
  pub allowed : contains req.exclude s.host ≡ false
  pub listed : (req.nodelist ≡ []) ⊎ (contains req.nodelist s.host ≡ true)

From-allocated :
    (ns : List Node) (s : StepNode)
    → From 0 ns s
    → (n : Node) × (get_elem? ns s.layout_index ≡ some n) × (s ≡ to_step s.layout_index n)
unfolding to_step
From-allocated ns s (j, n, e, q) =
    let k : j ≡ s.layout_index = sym (ap (λ (t : StepNode). t.layout_index) q ∙ zero-add j) in
    (n, subst (λ z. get_elem? ns z ≡ some n) k e, q ∙ ap (λ z. to_step z n) (zero-add j ∙ k))

-- The choices of a list of nodes, as a fact about every one of them.
choices :
    (lay : Layout) (req : StepRequest)
    → (P : StepNode → Type 0)
    → ((s : StepNode)
        → P s
        → From 0 lay.nodes s
          × Allowed req.exclude s
          × ((req.nodelist ≡ []) ⊎ Listed req.nodelist s))
    → (out : List StepNode) → All P out
    → All (IsChoice lay req) out
choices lay req P f out a =
    All-map P (IsChoice lay req)
      (λ s p. record {
        allocated = From-allocated lay.nodes s (f s p).0;
        allowed = (f s p).1;
        listed = (f s p).2;
      })
      out a

in_list_order-All :
    (P : StepNode → Type 0) (ns : List StepNode) (list : List String)
    → All P ns
    → All P (in_list_order ns list)
unfolding in_list_order
in_list_order-All P ns list a = All-order_loop P (by_host ns []) list (All-by_host P ns [] a tt)

listed_result-All :
    (P : StepNode → Type 0) (req : StepRequest) (chosen : List StepNode) (left : List String)
    (out : List StepNode)
    → All P chosen
    → listed_result req chosen left ≡ ok out
    → All P out
unfolding listed_result
listed_result-All P req chosen (h ∷ hs) out a e = absurd (err-ne-ok e)
listed_result-All P req [] [] out a e = absurd (err-ne-ok e)
listed_result-All P req (n ∷ ns) [] out a e = elim (Bool-cases req.ordered) [
  | inl o ↦ subst (All P) (ok-injective (rw o at e)) (in_list_order-All P (n ∷ ns) req.nodelist a)
  | inr o ↦ subst (All P) (ok-injective (rw o at e)) a
]

select_listed-IsChoice :
    (lay : Layout) (req : StepRequest) (out : List StepNode)
    → select_listed lay req ≡ ok out
    → All (IsChoice lay req) out
unfolding select_listed
select_listed-IsChoice lay req out h =
    let loop = listed_loop req.exclude 0 lay.nodes req.nodelist in
    choices lay req (Good req.nodelist req.exclude 0 lay.nodes) (λ s g. (g.0, g.1, inr g.2)) out
      (listed_result-All _ req loop.0 loop.1 out
        (listed_loop-Good req.exclude 0 lay.nodes req.nodelist) h)

length-take_le : (k : ℕ) (ss : List StepNode) → k ≤ length ss → length (take k ss) ≡ k
length-take_le zero ss h = refl
length-take_le (suc k) [] h = absurd (omega arith)
length-take_le (suc k) (s ∷ ss) h = ap suc (length-take_le k ss (omega arith))

unlisted_result-All :
    (P : StepNode → Type 0) (nodes : ℕ) (usable out : List StepNode)
    → All P usable
    → unlisted_result nodes usable ≡ ok out
    → All P out × (0 < nodes → length out ≡ nodes)
unfolding unlisted_result
unlisted_result-All P nodes usable out a e = elim (Bool-cases (length usable == 0)) [
  | inl none_left ↦ absurd (err-ne-ok (rw none_left at e))
  | inr some_left ↦ elim (Bool-cases (ltb 0 nodes)) [
    | inr any ↦ (
      subst (All P) (ok-injective (rw (some_left, any) at e)) a,
      λ h. absurd (false≢true (sym any ∙ ltb-eq_true 0 nodes h)),
    )
    | inl given ↦ elim (Bool-cases (ltb (length usable) nodes)) [
      | inl over ↦ absurd (err-ne-ok (rw (some_left, given, over) at e))
      | inr fits ↦
          let q = ok-injective (rw (some_left, given, fits) at e) in
          (
            subst (All P) q (All-take P nodes usable a),
            λ h. ap length (sym q) ∙ length-take_le nodes usable (ground arith),
          )
    ]
  ]
]

select_unlisted-IsChoice :
    (lay : Layout) (req : StepRequest) (out : List StepNode)
    → req.nodelist ≡ []
    → select_unlisted lay req ≡ ok out
    → All (IsChoice lay req) out × (0 < req.nodes → length out ≡ req.nodes)
unfolding select_unlisted
select_unlisted-IsChoice lay req out e h =
    let P = λ (s : StepNode). From 0 lay.nodes s × Allowed req.exclude s in
    let (a, n) =
      unlisted_result-All P req.nodes _ out
        (All-avoid_master P req.avoid_master _ (usable_from-Good req.exclude 0 lay.nodes)) h in
    (choices lay req P (λ s g. (g.0, g.1, inl e)) out a, n)

select_by-IsChoice :
    (lay : Layout) (req : StepRequest) (list : List String) (out : List StepNode)
    → req.nodelist ≡ list
    → select_by lay req list ≡ ok out
    → All (IsChoice lay req) out × ((list ≡ []) → 0 < req.nodes → length out ≡ req.nodes)
unfolding select_by
select_by-IsChoice lay req [] out e h =
    let (a, n) = select_unlisted-IsChoice lay req out e h in (a, λ _. n)
select_by-IsChoice lay req (x ∷ xs) out e h = (select_listed-IsChoice lay req out h, λ q. cc)

-- Every node that is chosen is a node of the allocation, with its slots and devices; it is not an
-- excluded one, and stands on the node list if there is one.
pub select_nodes-IsChoice :
    (lay : Layout) (req : StepRequest) (out : List StepNode)
    → select_nodes lay req ≡ ok out
    → All (IsChoice lay req) out
unfolding select_nodes
select_nodes-IsChoice lay req out h = (select_by-IsChoice lay req req.nodelist out refl h).0

-- Without a node list, a request for a number of nodes that is granted gets that many.
pub select_nodes_count :
    (lay : Layout) (req : StepRequest) (out : List StepNode)
    → select_nodes lay req ≡ ok out
    → req.nodelist ≡ []
    → 0 < req.nodes
    → length out ≡ req.nodes
unfolding select_nodes
select_nodes_count lay req out h = (select_by-IsChoice lay req req.nodelist out refl h).1
