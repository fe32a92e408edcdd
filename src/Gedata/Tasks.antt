-- ===== src/Gedata/Tasks.antt =====
-- internal/gedata/arraytask.go and tasklist.go: array tasks as Grid Engine and as SLURM names them.
pub mod Index
pub mod Range
use slurm_shim.Common.{
  ℕ, zero, suc, ◌+◌, ◌-◌, ◌%◌, ◌^◌, Bool, true, false, ◌&&◌, not, List, [], ◌∷◌, ◌++◌, Option, none,
  some, ◌==◌, ltb, leb, if◌then◌else◌, map,
}
use slurm_shim.Common.Int.{ℤ, pos, negsuc}
use slurm_shim.Text.Bytes.{Bytes, codes, bytes_eq, contains_byte}
use slurm_shim.Text.Split.{split, join, cut}
use slurm_shim.Text.Decimal.{itoa, atoi, max_int}
use slurm_shim.Layout.StepCounter.{add_one}

abbrev pub int_leb : ℤ → ℤ → Bool
int_leb (pos a) (pos b) = leb a b
int_leb (pos a) (negsuc b) = false
int_leb (negsuc a) (pos b) = true
int_leb (negsuc a) (negsuc b) = leb b a

-- n - lo for lo <= n. The text of a range has no sign in front of its low end, so this stays an int.
abbrev pub int_diff : ℤ → ℤ → ℕ
int_diff (pos a) (pos b) = a - b
int_diff (pos a) (negsuc b) = a + suc b
int_diff (negsuc a) (pos b) = 0
int_diff (negsuc a) (negsuc b) = b - a

-- An int minus one, which wraps around at -2^63.
abbrev pub sub_one : ℤ → ℤ
sub_one (pos zero) = negsuc 0
sub_one (pos (suc n)) = pos n
sub_one (negsuc n) = if leb (suc n) max_int then negsuc (suc n) else pos max_int

-- t + step, which wraps around at 2^63.
abbrev pub add_step : ℤ → ℕ → ℤ
add_step (pos n) s = if leb (n + s) max_int then pos (n + s) else negsuc (2 ^ 64 - 1 - (n + s))
add_step (negsuc n) s = if leb s n then negsuc (n - s) else pos (s - n - 1)

ge_task_of : Option ℤ → Option Bytes
unfolding itoa add_one
ge_task_of none = none
ge_task_of (some (negsuc k)) = none
ge_task_of (some (pos k)) = some (itoa (add_one (pos k)))

-- GETask
unfoldable pub ge_task : Bytes → Option Bytes
unfolding ge_task_of atoi
ge_task slurm_index = ge_task_of (atoi slurm_index)

-- A low end, a high end and a step.
pub record TaskRange : Type 0 where
  pub lo : ℤ
  pub hi : ℤ
  pub step : ℕ

-- A step below 1 is refused.
with_step : ℤ → ℤ → Option ℤ → Option TaskRange
with_step lo hi (some (pos (suc s))) = some (record { lo = lo; hi = hi; step = suc s })
with_step lo hi _ = none

with_ends : Option ℤ → Option ℤ → Option ℤ → Option TaskRange
unfolding with_step
with_ends (some lo) (some hi) step = with_step lo hi step
with_ends _ _ step = none

-- The span in front of the step: two ends, or no range.
parse_span : Bytes × Bytes × Bool → Option ℤ → Option TaskRange
unfolding with_ends atoi
parse_span (a, b, false) step = none
parse_span (a, b, true) step = with_ends (atoi a) (atoi b) step

-- Without a step it is 1.
parse_parts : Bytes × Bytes × Bool → Option TaskRange
unfolding parse_span cut atoi
parse_parts (span, st, false) = parse_span (cut span b'-') (some (pos 1))
parse_parts (span, st, true) = parse_span (cut span b'-') (atoi st)

-- parseTaskRange
unfoldable pub parse_task_range : Bytes → Option TaskRange
unfolding parse_parts cut
parse_task_range s = parse_parts (cut s b':')

range_text_of : Bytes → Option TaskRange → Bytes
unfolding itoa
range_text_of ge none = ge
range_text_of ge (some r) =
    b'['
    ∷ (itoa (sub_one r.lo)
        ++ (b'-'
            ∷ (itoa (sub_one r.hi)
                ++ ((if r.step == 1 then [] else b':' ∷ itoa (pos r.step)) ++ (b']' ∷ [])))))

slurm_task_of : Bytes → Option ℤ → Bytes
unfolding range_text_of parse_task_range itoa
slurm_task_of ge (some n) = itoa (sub_one n)
slurm_task_of ge none = range_text_of ge (parse_task_range ge)

-- SlurmTask
unfoldable pub slurm_task : Bytes → Bytes
unfolding slurm_task_of atoi
slurm_task [] = []
slurm_task (c ∷ s) = slurm_task_of (c ∷ s) (atoi (c ∷ s))

in_range : Option ℤ → Option TaskRange → Bool
in_range (some n) (some r) = int_leb r.lo n && int_leb n r.hi && (int_diff n r.lo % r.step == 0)
in_range _ _ = false

-- TaskInRange
unfoldable pub task_in_range : Bytes → Bytes → Bool
unfolding in_range parse_task_range atoi
task_in_range ge t = if bytes_eq ge t then true else in_range (atoi t) (parse_task_range ge)

listed_before : List Bytes → Option (List Bytes) → Option (List Bytes)
listed_before ts none = none
listed_before ts (some rest) = some (ts ++ rest)

both_listed : Option (List Bytes) → Option (List Bytes) → Option (List Bytes)
unfolding listed_before
both_listed none rest = none
both_listed (some ts) rest = listed_before ts rest

-- The loop from `t` to the high end on fuel; `none` when the fuel runs out.
range_loop : ℕ → ℤ → TaskRange → Option (List Bytes)
unfolding itoa listed_before
range_loop zero t r = none
range_loop (suc f) t r =
    let rest = range_loop f (add_step t r.step) r in
    if int_leb t r.hi then listed_before (itoa t ∷ []) rest else some []

-- A range has as many tasks at most as its ends are apart, and one more.
expand_part : Bytes → Option TaskRange → Option (List Bytes)
unfolding range_loop
expand_part part none = some (part ∷ [])
expand_part part (some r) = range_loop (suc (suc (int_diff r.hi r.lo))) r.lo r

expand_parts : List Bytes → Option (List Bytes)
unfolding both_listed expand_part parse_task_range
expand_parts [] = some []
expand_parts (part ∷ parts) =
    both_listed (expand_part part (parse_task_range part)) (expand_parts parts)

-- ExpandTasks; `none` where the sum in the loop leaves the range of an int, so that it does not end.
unfoldable pub expand_tasks : Bytes → Option (List Bytes)
unfolding expand_parts split
expand_tasks list = expand_parts (split list b',')

contains_parts : List Bytes → Bytes → Bool
unfolding task_in_range
contains_parts [] t = false
contains_parts (part ∷ parts) t =
    let rest = contains_parts parts t in if task_in_range part t then true else rest

-- TaskListContains
unfoldable pub task_list_contains : Bytes → Bytes → Bool
unfolding contains_parts split
task_list_contains list t = contains_parts (split list b',') t

-- IsTaskList
unfoldable pub is_task_list : Bytes → Bool
unfolding contains_byte
is_task_list ge = if contains_byte ge b'-' then true else contains_byte ge b','

is_bracket : ℕ → Bool
is_bracket c = if c == b'[' then true else c == b']'

unfoldable pub trim_brackets_left : Bytes → Bytes
unfolding is_bracket
trim_brackets_left [] = []
trim_brackets_left (c ∷ s) = let rest = trim_brackets_left s in if is_bracket c then rest else c ∷ s

unfoldable pub trim_brackets_right : Bytes → Bytes
unfolding is_bracket
trim_brackets_right [] = []
trim_brackets_right (c ∷ s) = elim (trim_brackets_right s) [
  | [] ↦ if is_bracket c then [] else c ∷ []
  | d ∷ r ↦ c ∷ d ∷ r
]

-- SlurmTaskList; strings.Trim(s, "[]") takes brackets off both ends.
unfoldable pub slurm_task_list : Bytes → Bytes
unfolding slurm_task contains_byte split join trim_brackets_left trim_brackets_right
slurm_task_list list =
    if contains_byte list b','
    then b'['
      ∷ (join
            (map (λ (part : Bytes). trim_brackets_right (trim_brackets_left (slurm_task part)))
              (split list b','))
            b','
          ++ (b']' ∷ []))
    else slurm_task list

first_of_range : Option TaskRange → ℤ
first_of_range (some r) = r.lo
first_of_range none = pos 1

first_of : Bytes → Option ℤ → ℤ
unfolding first_of_range parse_task_range
first_of first (some n) = n
first_of first none = first_of_range (parse_task_range first)

-- firstTask
unfoldable pub first_task : Bytes → ℤ
unfolding first_of cut atoi
first_task ge = first_of (cut ge b',').0 (atoi (cut ge b',').0)
