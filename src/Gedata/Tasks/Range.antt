-- ===== src/Gedata/Tasks/Range.antt =====
-- Ranges of tasks, listed and asked for (internal/gedata/arraytask.go and tasklist.go).
use native.Mathlib.Nat.{mod-eq-sub-mod, mod-eq_of_lt}
use slurm_shim.Common.{
  ℕ, zero, suc, ◌+◌, ◌-◌, ◌%◌, ◌≤◌, ◌<◌, Bool, true, false, ◌&&◌, List, [], ◌∷◌, ◌++◌, some, ◌≡◌,
  ◌≢◌, refl, sym, ap, ◌∙◌, arith, leb, ◌==◌, if◌then◌else◌, Bool-cases, inl, inr, some_inj, All,
  append_assoc, append-nil, subst, drop, length, ==→eq, ==_refl, leb→le,
}
use slurm_shim.Common.Int.{ℤ, pos, pos_part}
use slurm_shim.Text.Bytes.{
  Bytes, bytes_eq, bytes_eq→eq, bytes_eq_refl, IsDigit, Lacks, All-append, All-imp,
  index_byte-append, take-append_length,
}
use slurm_shim.Text.Split.{split, cut, cut_at, join, split-join}
use slurm_shim.Text.Decimal.{itoa, itoa_ℕ, itoa_ℕ-IsDigit, atoi, atoi-itoa, max_int}
use slurm_shim.Gedata.Tasks.{
  TaskRange, int_diff, add_step, with_step, with_ends, parse_span, parse_parts, parse_task_range,
  in_range, task_in_range, listed_before, both_listed, range_loop, expand_part, expand_parts,
  expand_tasks, contains_parts, task_list_contains,
}

-- Whether a text is in a list.
abbrev pub names : List Bytes → Bytes → Bool
names [] t = false
names (x ∷ xs) t = let rest = names xs t in if bytes_eq x t then true else rest

itoa_injective : (a b : ℕ) → a ≤ max_int → b ≤ max_int → itoa (pos a) ≡ itoa (pos b) → a ≡ b
itoa_injective a b ha hb e =
    ap pos_part (some_inj (sym (atoi-itoa (pos a) ha) ∙ ap atoi e ∙ atoi-itoa (pos b) hb))

bytes_eq-itoa :
    (a b : ℕ) → a ≤ max_int → b ≤ max_int → bytes_eq (itoa (pos a)) (itoa (pos b)) ≡ (a == b)
bytes_eq-itoa a b ha hb = elim (Bool-cases (a == b)) [
  | inl e ↦ rw (==→eq a b e) (bytes_eq_refl (itoa (pos b)) ∙ sym (==_refl b))
  | inr e ↦ elim (Bool-cases (bytes_eq (itoa (pos a)) (itoa (pos b)))) [
    | inl s ↦
        let same = itoa_injective a b ha hb (bytes_eq→eq (itoa (pos a)) (itoa (pos b)) s) in
        absurd (ground (arith, same, e))
    | inr s ↦ s ∙ sym e
  ]
]

-- The tasks from `t` on with step `s` up to `h`, asked for by their number.
abbrev member : ℕ → ℕ → ℕ → ℕ → Bool
member t h s k = leb t k && leb k h && ((k - t) % s == 0)

member_step :
    (t h s k : ℕ) → 0 < s → t ≤ h → (if t == k then true else member (t + s) h s k) ≡ member t h s k
member_step t h s k hs ht =
    let far : t + s ≤ k → (k - t) % s ≡ (k - (t + s)) % s = λ e.
      let gap : k - t - s ≡ k - (t + s) = omega arith in
      mod-eq-sub-mod (omega arith) ∙ ap (λ (z : ℕ). z % s) gap in
    let near : k < t + s → (k - t) % s ≡ k - t = λ e. mod-eq_of_lt (omega arith) in
    ground (arith, far, near)

-- The loop ends within the fuel, and lists just the tasks of the range from `t` on.
range_loop_members :
    (f t lo h s : ℕ)
    → 0 < s
    → h + s ≤ max_int
    → h < t + f
    → (ts : List Bytes) × (range_loop (suc f) (pos t) (record { lo = pos lo; hi = pos h; step = s })
        ≡ some ts)
      × ((k : ℕ) → k ≤ max_int → names ts (itoa (pos k)) ≡ member t h s k)
unfolding range_loop listed_before
range_loop_members zero t lo h s hs fits hf =
    let past : leb t h ≡ false = ground arith in ([], rw past refl, λ k hk. ground arith)
range_loop_members (suc f) t lo h s hs fits hf = elim (Bool-cases (leb t h)) [
  | inr past ↦ ([], rw past refl, λ k hk. ground (arith, past))
  | inl here ↦
      let le : t ≤ h = leb→le t h here in
      let next : add_step (pos t) s ≡ pos (t + s) = ground arith in
      let (ts, run, members) = range_loop_members f (t + s) lo h s hs fits (omega arith) in
      (
        itoa (pos t) ∷ ts,
        rw (here, next, run) refl,
        λ k hk. rw (bytes_eq-itoa t k (omega arith) hk, members k hk) (member_step t h s k hs le),
      )
]

drop_behind : (p t : Bytes) (b : ℕ) → drop (suc (length p)) (p ++ b ∷ t) ≡ t
drop_behind [] t b = refl
drop_behind (c ∷ p) t b = drop_behind p t b

cut-append : (p t : Bytes) (b : ℕ) → Lacks b p → cut (p ++ b ∷ t) b ≡ (p, t, true)
unfolding cut cut_at
cut-append p t b h = ap (cut_at (p ++ b ∷ t)) (index_byte-append p t b h) ∙ λ i.
    (take-append_length p (b ∷ t) i, drop_behind p t b i, true)

-- The text of a range as qstat prints it: "lo-hi:step".
abbrev pub range_text : ℕ → ℕ → ℕ → Bytes
range_text lo hi step = (itoa (pos lo) ++ (b'-' ∷ itoa (pos hi))) ++ (b':' ∷ itoa (pos step))

digits_lack : (b n : ℕ) → b < b'0' → Lacks b (itoa (pos n))
unfolding itoa
digits_lack b n h = All-imp IsDigit (λ c. c ≢ b) (λ c d. omega arith) (itoa_ℕ n) (itoa_ℕ-IsDigit n)

colon_lack : (n : ℕ) → Lacks b':' (itoa (pos n))
unfolding itoa
colon_lack n = All-imp IsDigit (λ c. c ≢ b':') (λ c d. omega arith) (itoa_ℕ n) (itoa_ℕ-IsDigit n)

parse_parts-span :
    (lo hi s : ℕ)
    → lo ≤ max_int
    → hi ≤ max_int
    → suc s ≤ max_int
    → parse_parts (itoa (pos lo) ++ (b'-' ∷ itoa (pos hi)), itoa (pos (suc s)), true)
      ≡ some (record { lo = pos lo; hi = pos hi; step = suc s })
unfolding parse_parts
parse_parts-span lo hi s hlo hhi hs =
    ap (λ (z : Bytes × Bytes × Bool). parse_span z (atoi (itoa (pos (suc s)))))
      (cut-append (itoa (pos lo)) (itoa (pos hi)) b'-' (digits_lack b'-' lo (omega arith)))
    ∙ unfold parse_span in
      rw (atoi-itoa (pos lo) hlo, atoi-itoa (pos hi) hhi, atoi-itoa (pos (suc s)) hs)
        (unfold with_ends with_step in refl)

parse_task_range-range_text :
    (lo hi s : ℕ)
    → lo ≤ max_int
    → hi ≤ max_int
    → suc s ≤ max_int
    → parse_task_range (range_text lo hi (suc s))
      ≡ some (record { lo = pos lo; hi = pos hi; step = suc s })
unfolding parse_task_range
parse_task_range-range_text lo hi s hlo hhi hs =
    ap parse_parts (
      cut-append (itoa (pos lo) ++ (b'-' ∷ itoa (pos hi))) (itoa (pos (suc s))) b':' (
        All-append (λ c. c ≢ b':') (itoa (pos lo)) (b'-' ∷ itoa (pos hi)) (colon_lack lo)
          (omega arith, colon_lack hi)))
    ∙ parse_parts-span lo hi s hlo hhi hs

range_text-Lacks : (b lo hi s : ℕ) → b < b'-' → Lacks b (range_text lo hi s)
range_text-Lacks b lo hi s h =
    All-append (λ c. c ≢ b) (itoa (pos lo) ++ (b'-' ∷ itoa (pos hi))) (b':' ∷ itoa (pos s))
      (All-append (λ c. c ≢ b) (itoa (pos lo)) (b'-' ∷ itoa (pos hi))
        (digits_lack b lo (omega arith)) (omega arith, digits_lack b hi (omega arith)))
      (omega arith, digits_lack b s (omega arith))

cons-ne-nil : (p : Bytes) → p ∷ [] ≢ []
cons-ne-nil p = cc

split-range_text : (lo hi s : ℕ) → split (range_text lo hi s) b',' ≡ range_text lo hi s ∷ []
split-range_text lo hi s =
    unfold join in
    split-join (range_text lo hi s ∷ []) b',' (cons-ne-nil (range_text lo hi s))
      (range_text-Lacks b',' lo hi s (omega arith), tt)

dash_inside : (p t : Bytes) → All IsDigit ((p ++ b'-' ∷ t)) → ⊥
dash_inside [] t (d, ds) = omega arith
dash_inside (c ∷ p) t (d, ds) = dash_inside p t ds

range_text-ne-itoa : (lo hi s k : ℕ) → bytes_eq (range_text lo hi s) (itoa (pos k)) ≡ false
range_text-ne-itoa lo hi s k = elim (Bool-cases (bytes_eq (range_text lo hi s) (itoa (pos k)))) [
  | inr e ↦ e
  | inl e ↦
      let same = bytes_eq→eq (range_text lo hi s) (itoa (pos k)) e in
      let digits : All IsDigit (itoa (pos k)) = unfold itoa in itoa_ℕ-IsDigit k in
      let moved = append_assoc (itoa (pos lo)) (b'-' ∷ itoa (pos hi)) (b':' ∷ itoa (pos s)) in
      absurd (
        dash_inside (itoa (pos lo)) (itoa (pos hi) ++ (b':' ∷ itoa (pos s)))
          (subst (All IsDigit) (sym same ∙ moved) digits))
]

or_false : (b : Bool) → (if b then true else false) ≡ b
or_false true = refl
or_false false = refl

expand_one :
    (part : Bytes) (r : TaskRange) (ts : List Bytes)
    → parse_task_range part ≡ some r
    → range_loop (suc (suc (int_diff r.hi r.lo))) r.lo r ≡ some ts
    → expand_parts (part ∷ []) ≡ some ts
unfolding expand_parts
expand_one part r ts p run =
    rw p (unfold expand_part both_listed listed_before in rw run (ap some (append-nil ts)))

asked_one :
    (part t : Bytes) (r : TaskRange) (n : ℤ)
    → bytes_eq part t ≡ false
    → parse_task_range part ≡ some r
    → atoi t ≡ some n
    → contains_parts (part ∷ []) t ≡ in_range (some n) (some r)
unfolding contains_parts task_in_range
asked_one part t r n e p a = rw (e, p, a) (or_false (in_range (some n) (some r)))

listed_range :
    (lo hi s : ℕ) (ts : List Bytes)
    → lo ≤ max_int
    → hi + suc s ≤ max_int
    → range_loop (suc (suc (hi - lo))) (pos lo) (record { lo = pos lo; hi = pos hi; step = suc s })
      ≡ some ts
    → expand_tasks (range_text lo hi (suc s)) ≡ some ts
unfolding expand_tasks
listed_range lo hi s ts hlo hhi run =
    ap expand_parts (split-range_text lo hi (suc s))
    ∙ expand_one (range_text lo hi (suc s)) (record { lo = pos lo; hi = pos hi; step = suc s }) ts
        (parse_task_range-range_text lo hi s hlo (omega arith) (omega arith)) run

asked_range :
    (lo hi s k : ℕ)
    → lo ≤ max_int
    → hi + suc s ≤ max_int
    → k ≤ max_int
    → task_list_contains (range_text lo hi (suc s)) (itoa (pos k)) ≡ member lo hi (suc s) k
unfolding task_list_contains in_range
asked_range lo hi s k hlo hhi hk =
    ap (λ (ps : List Bytes). contains_parts ps (itoa (pos k))) (split-range_text lo hi (suc s))
    ∙ asked_one (range_text lo hi (suc s)) (itoa (pos k))
        (record { lo = pos lo; hi = pos hi; step = suc s }) (pos k)
        (range_text-ne-itoa lo hi (suc s) k)
        (parse_task_range-range_text lo hi s hlo (omega arith) (omega arith)) (atoi-itoa (pos k) hk)

-- A range of tasks, as qstat prints it, is listed and asked for alike: ExpandTasks ends and gives a
-- list in which a task number stands exactly if TaskListContains finds it in the range, which is if
-- it lies between the ends, a multiple of the step away from the low end. The high end plus the
-- step is an int.
pub expand_tasks_members :
    (lo hi s k : ℕ)
    → lo ≤ max_int
    → hi + suc s ≤ max_int
    → k ≤ max_int
    → (ts : List Bytes) × (expand_tasks (range_text lo hi (suc s)) ≡ some ts)
      × (names ts (itoa (pos k)) ≡ (leb lo k && leb k hi && ((k - lo) % suc s == 0)))
      × (task_list_contains (range_text lo hi (suc s)) (itoa (pos k)) ≡ names ts (itoa (pos k)))
expand_tasks_members lo hi s k hlo hhi hk =
    let (ts, run, members) =
      range_loop_members (suc (hi - lo)) lo lo hi (suc s) (omega arith) hhi (omega arith) in
    (
      ts,
      listed_range lo hi s ts hlo hhi run,
      members k hk,
      asked_range lo hi s k hlo hhi hk ∙ sym (members k hk),
    )
