-- ===== src/Plan/Spread/Level.antt =====
-- The counts that `spread` computes, described without a loop: the capacities cut at a level, and
-- the nodes before a point cut one higher.
use slurm_shim.Common.{
  ℕ, zero, suc, ◌+◌, ◌-◌, ◌≤◌, ◌<◌, min, List, [], ◌∷◌, Option, some, ◌≡◌, refl, sym, ap, ◌∙◌,
  arith, ltb-eq_true, ltb-eq_false, ok, err, length, replicate, inl, inr, ◌⊎◌, false, Bool-cases,
}
use native.Mathlib.Decide.{dec_le, dec_lt}
use native.Mathlib.Nat.{le_refl}
use slurm_shim.Common.Int.{ℤ, pos, negsuc, pos_part}
use slurm_shim.Text.Decimal.{max_int}
use slurm_shim.Text.Int64.{int_lt, to_int-fits, pos_part-to_int}
use slurm_shim.Plan.Types.{too_many_tasks}
use slurm_shim.Plan.Spread.{sum_from, total, spread_pass, spread_loop, counted, spread}

abbrev pub sum : List ℕ → ℕ
sum [] = 0
sum (c ∷ cs) = c + sum cs

-- Each capacity cut at `m`, those of the first `p` nodes at `m + 1`.
abbrev pub level : ℕ → ℕ → List ℕ → List ℕ
level m p [] = []
level m zero (c ∷ cs) = min c m ∷ level m zero cs
level m (suc p) (c ∷ cs) = min c (suc m) ∷ level m p cs

sum_from-sum : (acc : ℕ) (cs : List ℕ) → sum_from acc cs ≡ acc + sum cs
unfolding sum_from
sum_from-sum acc [] = omega arith
sum_from-sum acc (c ∷ cs) = omega (arith, sum_from-sum (acc + c) cs)

sum_from-zero : (caps : List ℕ) → sum_from 0 caps ≡ sum caps
sum_from-zero caps = omega (arith, sum_from-sum 0 caps)

-- The total is the sum of the capacities where an `int` holds it, and never more.
pub total-sum : (caps : List ℕ) → sum caps ≤ max_int → total caps ≡ pos (sum caps)
unfolding total
total-sum caps h = rw (sum_from-zero caps) (to_int-fits (sum caps) h)

pub pos_part-total : (caps : List ℕ) → pos_part (total caps) ≤ sum caps
unfolding total
pos_part-total caps = rw (sum_from-zero caps) (pos_part-to_int (sum caps))

pub length-level : (m p : ℕ) (caps : List ℕ) → length (level m p caps) ≡ length caps
length-level m zero [] = refl
length-level m (suc p) [] = refl
length-level m zero (c ∷ cs) = ap suc (length-level m zero cs)
length-level m (suc p) (c ∷ cs) = ap suc (length-level m p cs)

level_zero : (caps : List ℕ) → replicate (length caps) 0 ≡ level 0 0 caps
level_zero [] = refl
level_zero (c ∷ cs) = ground (arith, level_zero cs)

level_full : (m : ℕ) (caps : List ℕ) → level m (length caps) caps ≡ level (suc m) 0 caps
level_full m [] = refl
level_full m (c ∷ cs) = ap (λ r. min c (suc m) ∷ r) (level_full m cs)

-- A pass with nothing left changes nothing.
pass_done :
    (m : ℕ) (caps : List ℕ) (n : ℕ) → spread_pass caps (level m 0 caps) n n ≡ (level m 0 caps, n)
unfolding spread_pass
pass_done m [] n = refl
pass_done m (c ∷ cs) n = ground (arith, pass_done m cs n)

-- A pass from level `m` ends at a point `p` of that level; it stops early only with all placed.
pass_level :
    (m : ℕ) (caps : List ℕ) (placed n : ℕ)
    → placed ≤ n
    → (p : ℕ) × (spread_pass caps (level m 0 caps) placed n
        ≡ (level m p caps, placed + sum (level m p caps) - sum (level m 0 caps)))
      × (sum (level m 0 caps) ≤ sum (level m p caps))
      × (placed + sum (level m p caps) ≤ n + sum (level m 0 caps))
      × ((p ≡ length caps) ⊎ (placed + sum (level m p caps) ≡ n + sum (level m 0 caps)))
unfolding spread_pass
pass_level m [] placed n h = (0, ground arith, omega arith, omega arith, inl refl)
pass_level m (c ∷ cs) placed n h = elim (dec_le c m) [
  | yes cut ↦
      let (p, e, up, fits, ends) = pass_level m cs placed n h in
      (suc p, ground arith, ground arith, ground arith, ground arith)
  | no above ↦ elim (dec_lt placed n) [
    | yes more ↦
        let (p, e, up, fits, ends) = pass_level m cs (placed + 1) n (omega arith) in
        (suc p, ground arith, ground arith, ground arith, ground arith)
    | no all ↦
        let e : placed ≡ n = omega arith in
        (0, ground (arith, pass_done m cs n), omega arith, omega arith, inr (omega arith))
  ]
]

level-le-cap : (m : ℕ) (caps : List ℕ) → sum (level m 0 caps) ≤ sum caps
level-le-cap m [] = omega arith
level-le-cap m (c ∷ cs) = omega (arith, level-le-cap m cs)

level_mono : (m : ℕ) (caps : List ℕ) → sum (level m 0 caps) ≤ sum (level (suc m) 0 caps)
level_mono m [] = omega arith
level_mono m (c ∷ cs) = omega (arith, level_mono m cs)

-- Below the total, the next level holds more.
level_grows :
    (m : ℕ) (caps : List ℕ)
    → sum (level m 0 caps) < sum caps
    → sum (level m 0 caps) < sum (level (suc m) 0 caps)
level_grows m [] h = h
level_grows m (c ∷ cs) h = elim (dec_le c m) [
  | yes cut ↦ omega (arith, level_grows m cs (omega arith))
  | no above ↦ omega (arith, level_mono m cs)
]

loop_end :
    (f : ℕ) (caps counts : List ℕ) (n : ℕ) → 0 < f → spread_loop f caps counts n n ≡ some counts
unfolding spread_loop
loop_end zero caps counts n h = absurd (omega arith)
loop_end (suc f) caps counts n h = rw (ltb-eq_false n n (le_refl n), spread_loop)

loop_more :
    (f : ℕ) (caps counts : List ℕ) (placed n : ℕ)
    → placed < n
    → spread_loop (suc f) caps counts placed n
      ≡ spread_loop f caps
          (spread_pass caps counts placed n).0
          (spread_pass caps counts placed n).1
          n
unfolding spread_loop
loop_more f caps counts placed n h = rw (ltb-eq_true placed n h, spread_loop)

loop_step :
    (f : ℕ) (caps counts : List ℕ) (placed n : ℕ) (counts' : List ℕ) (placed' : ℕ)
    {r : Option (List ℕ)}
    → placed < n
    → spread_pass caps counts placed n ≡ (counts', placed')
    → spread_loop f caps counts' placed' n ≡ r
    → spread_loop (suc f) caps counts placed n ≡ r
loop_step f caps counts placed n counts' placed' more e run =
    loop_more f caps counts placed n more ∙ rw e run

-- The loop, started at a level, ends within the fuel at a point of some level that holds `n`.
loop_level :
    (f m : ℕ) (caps : List ℕ) (placed n : ℕ)
    → placed ≡ sum (level m 0 caps)
    → placed ≤ n
    → n ≤ sum caps
    → n < placed + f
    → (m' p : ℕ) × (spread_loop f caps (level m 0 caps) placed n ≡ some (level m' p caps))
      × (sum (level m' p caps) ≡ n)
unfolding spread_loop
loop_level zero m caps placed n at le fits fuel = absurd (omega arith)
loop_level (suc f) m caps placed n at le fits fuel = elim (dec_lt placed n) [
  | no all ↦
      let e : placed ≡ n = omega arith in
      (m, 0, rw e (loop_end (suc f) caps (level m 0 caps) n (omega arith)), omega arith)
  | yes more ↦
      let (p, e, up, room, ends) = pass_level m caps placed n le in
      elim ends [
        | inr exact ↦
            let same : placed + sum (level m p caps) - sum (level m 0 caps) ≡ n = omega arith in
            let e' : spread_pass caps (level m 0 caps) placed n ≡ (level m p caps, n) = cc in
            (
              m,
              p,
              loop_step f caps _ placed n _ n more e' (loop_end f caps _ n (omega arith)),
              omega arith,
            )
        | inl full ↦
            let whole : level m p caps ≡ level (suc m) 0 caps = rw full (level_full m caps) in
            let now : placed + sum (level m p caps) - sum (level m 0 caps)
                ≡ sum (level (suc m) 0 caps) =
              rw whole (omega arith) in
            let grows = level_grows m caps (omega arith) in
            let (m', q, run, sums) =
              loop_level f (suc m) caps (sum (level (suc m) 0 caps)) n refl
                (omega (arith, ap sum whole)) fits (omega arith) in
            let e' : spread_pass caps (level m 0 caps) placed n
                ≡ (level (suc m) 0 caps, sum (level (suc m) 0 caps)) =
              cc in
            (m', q, loop_step f caps _ placed n _ _ more e' run, sums)
      ]
]

sum_zero : (caps : List ℕ) → sum (level 0 0 caps) ≡ 0
sum_zero [] = refl
sum_zero (c ∷ cs) = omega (arith, sum_zero cs)

-- Whatever is not refused is handed to the loop, which starts with a count of 0 for each node.
spread_loops :
    (caps : List ℕ) (n : ℤ)
    → int_lt (total caps) n ≡ false
    → spread caps n ≡ counted (spread_loop (suc (pos_part n)) caps (level 0 0 caps) 0 (pos_part n))
unfolding spread
spread_loops caps n h =
    rw h
      (ap (λ z. counted (spread_loop (suc (pos_part n)) caps z 0 (pos_part n))) (level_zero caps))

spread_counts :
    (caps : List ℕ) (n : ℕ)
    → n ≤ sum caps
    → int_lt (total caps) (pos n) ≡ false
    → (m p : ℕ) × (spread caps (pos n) ≡ some (ok (level m p caps))) × (sum (level m p caps) ≡ n)
spread_counts caps n h taken =
    let (m, p, run, sums) =
      loop_level (suc n) 0 caps 0 n (sym (sum_zero caps)) (omega arith) h (omega arith) in
    (m, p, spread_loops caps (pos n) taken ∙ ap counted run, sums)

-- A request within the capacities, whose sum an `int` holds, is spread in rounds: for some level and
-- point, every node runs its capacity cut at the level, one more before the point, and all ranks are
-- placed. So the loop ends, no node exceeds its capacity, and no node is two ranks ahead of one with
-- room left.
pub spread-level :
    (caps : List ℕ) (n : ℕ)
    → sum caps ≤ max_int
    → n ≤ sum caps
    → (m p : ℕ) × (spread caps (pos n) ≡ some (ok (level m p caps))) × (sum (level m p caps) ≡ n)
spread-level caps n fits h =
    spread_counts caps n h
      (ap (λ t. int_lt t (pos n)) (total-sum caps fits) ∙ ltb-eq_false (sum caps) n h)

-- Counts for all capacities, with every task placed; none for a negative number of tasks.
pub record IsSpread (caps : List ℕ) (n : ℤ) (counts : List ℕ) : Type 0 where
  pub sized : length counts ≡ length caps
  pub placed : sum counts ≡ pos_part n

int_lt-part : (t : ℤ) (n : ℕ) → int_lt t (pos n) ≡ false → n ≤ pos_part t
int_lt-part (pos a) n h = ground (arith, h)
int_lt-part (negsuc a) n h = cc

-- A request beyond the total fails, and any other one is spread, also where the total wraps around.
pub spread_total :
    (caps : List ℕ) (n : ℤ)
    → (spread caps n ≡ some (err (too_many_tasks n (total caps))))
      ⊎ ((counts : List ℕ) × (spread caps n ≡ some (ok counts)) × IsSpread caps n counts)
spread_total caps n = elim (Bool-cases (int_lt (total caps) n)) [
  | inl over ↦ inl (unfold spread in rw over refl)
  | inr taken ↦ inr (spreads n taken)
]
  where
    spreads :
        (n : ℤ)
        → int_lt (total caps) n ≡ false
        → (counts : List ℕ) × (spread caps n ≡ some (ok counts)) × IsSpread caps n counts
    spreads (negsuc k) taken = (
      level 0 0 caps,
      spread_loops caps (negsuc k) taken
          ∙ ap counted (loop_end 1 caps (level 0 0 caps) 0 (omega arith)),
      record { sized = length-level 0 0 caps; placed = sum_zero caps },
    )
    spreads (pos k) taken =
        let few : k ≤ sum caps =
          omega (arith, int_lt-part (total caps) k taken, pos_part-total caps) in
        let (m, p, e, s) = spread_counts caps k few taken in
        (level m p caps, e, record { sized = length-level m p caps; placed = s })
