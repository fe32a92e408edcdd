-- ===== src/Layout/StepCounter/Sequence.antt =====
-- The ids that the step counter of internal/layout/stepctr.go issues.
use slurm_shim.Common.{
  ℕ, zero, suc, ◌+◌, ◌≤◌, List, [], ◌∷◌, ◌++◌, Option, none, some, ◌≡◌, ◌≢◌, refl, sym, ap, ◌∙◌,
  arith, Result, ok, err, length, length-append, take,
}
use slurm_shim.Common.Int.{ℤ, pos, negsuc}
use slurm_shim.Text.Bytes.{Bytes}
use slurm_shim.Text.Split.{trim_space}
use slurm_shim.Text.Split.Trim.{trim_space-line, itoa-NotSpace}
use slurm_shim.Text.Decimal.{itoa, length-itoa, atoi, atoi-itoa, max_int, InInt}
use slurm_shim.Layout.StepCounter.{
  newline, StepError, init_step_counter, add_one, parse_last, next_of, peek_step, read_buffer,
  opened, write_back, next_step,
}

-- The file that holds `v` as the last id.
abbrev pub holding : ℤ → Option Bytes
holding v = some (itoa v ++ (newline ∷ []))

take_all : (n : ℕ) (s : Bytes) → length s ≤ n → take n s ≡ s
take_all zero [] h = refl
take_all zero (c ∷ s) h = absurd (omega arith)
take_all (suc n) [] h = refl
take_all (suc n) (c ∷ s) h = ap (λ (r : Bytes). c ∷ r) (take_all n s (omega arith))

next_of-ne-nil : (s : Bytes) → s ≢ [] → next_of s ≡ parse_last s (atoi s)
unfolding next_of
next_of-ne-nil [] h = absurd (h refl)
next_of-ne-nil (c ∷ s) h = refl

next_of-itoa : (v : ℤ) → InInt v → next_of (itoa v) ≡ ok (add_one v)
next_of-itoa v h =
    next_of-ne-nil (itoa v) (itoa-NotSpace v).0
    ∙ ap (parse_last (itoa v)) (atoi-itoa v h)
    ∙ unfold parse_last in refl

-- NextStep on a file that holds the last id issues the id behind it, and the file then holds that
-- id, for every last id that is an int.
pub next_step_issues :
    (v : ℤ) → InInt v → next_step (holding v) ≡ (ok (add_one v), holding (add_one v))
unfolding next_step
next_step_issues v h =
    let short : length (itoa v ++ newline ∷ []) ≤ 64 =
      omega (arith, length-itoa v h, length-append (itoa v) (newline ∷ [])) in
    let whole : read_buffer (holding v) ≡ itoa v ++ newline ∷ [] =
      unfold read_buffer in take_all 64 (itoa v ++ newline ∷ []) short in
    rw (whole, trim_space-line (itoa v) (itoa-NotSpace v).0 (itoa-NotSpace v).1, next_of-itoa v h)
      (unfold write_back in refl)

-- The results of `n` calls of NextStep, one after the other, and the file behind them.
abbrev pub issue : ℕ → Option Bytes → List (Result StepError ℤ) × Option Bytes
issue zero file = ([], file)
issue (suc n) file =
    let (id, file') = next_step file in let (ids, end) = issue n file' in (id ∷ ids, end)

-- The ids from `first` on.
abbrev pub ids_from : ℕ → ℕ → List (Result StepError ℤ)
ids_from first zero = []
ids_from first (suc n) = ok (pos first) ∷ ids_from (suc first) n

-- The last id behind which `first` is issued.
abbrev pub last_before : ℕ → ℤ
last_before zero = negsuc 0
last_before (suc n) = pos n

add_one-last_before : (n : ℕ) → n ≤ max_int → add_one (last_before n) ≡ pos n
unfolding add_one
add_one-last_before zero h = refl
add_one-last_before (suc n) h = ground arith

last_before-InInt : (n : ℕ) → n ≤ max_int → InInt (last_before n)
last_before-InInt zero h = omega arith
last_before-InInt (suc n) h = omega arith

issue_from :
    (n first : ℕ)
    → first + n ≤ suc max_int
    → issue n (holding (last_before first)) ≡ (ids_from first n, holding (last_before (first + n)))
issue_from zero first h = let e : first + 0 ≡ first = omega arith in rw e refl
issue_from (suc n) first h =
    let fits : first ≤ max_int = omega arith in
    let next : add_one (last_before first) ≡ pos first = add_one-last_before first fits in
    let e : first + suc n ≡ suc first + n = omega arith in
    rw
      (
        e,
        next_step_issues (last_before first) (last_before-InInt first fits),
        next,
        issue_from n (suc first) (omega arith),
      )
      refl

-- The calls of NextStep after InitStepCounter issue the ids 0, 1, 2, and so on, none twice and none
-- left out, as long as they are ints; the file then holds the last of them.
pub issue-init :
    (n : ℕ) (file : Option Bytes)
    → n ≤ max_int
    → issue n (init_step_counter file) ≡ (ids_from 0 n, holding (last_before n))
unfolding init_step_counter
issue-init n file h =
    let e : 0 + n ≡ n = omega arith in
    let i : init_step_counter file ≡ holding (negsuc 0) = unfold itoa in refl in
    rw i (issue_from n 0 (omega arith) ∙ rw e refl)

write_back-id : (content : Bytes) (r : Result StepError ℤ) → (write_back content r).0 ≡ r
unfolding write_back
write_back-id content (ok next) = refl
write_back-id content (err e) = refl

-- PeekStep answers what NextStep would, errors included, for every file of up to 64 bytes, which is
-- what NextStep reads, and where there is no file.
pub peek_agrees :
    (file : Option Bytes) → length (opened file) ≤ 64 → peek_step file ≡ (next_step file).0
unfolding peek_step next_step opened read_buffer
peek_agrees none h = refl
peek_agrees (some content) h =
    rw (take_all 64 content h) (sym (write_back-id content (next_of (trim_space content))))
