-- ===== src/Layout/StepCounter.antt =====
-- internal/layout/stepctr.go. The counter file is its content, `none` where there is no file; a read
-- or write that the system refuses is left out. The exclusive lock makes next_step one step.
pub mod Sequence
use slurm_shim.Common.{
  ℕ, zero, suc, ◌+◌, List, [], ◌∷◌, ◌++◌, Option, none, some, Result, ok, err, leb, if◌then◌else◌,
  take,
}
use slurm_shim.Common.Int.{ℤ, pos, negsuc}
use slurm_shim.Text.Bytes.{Bytes, codes}
use slurm_shim.Text.Split.{trim_space}
use slurm_shim.Text.Decimal.{itoa, atoi, max_int}

abbrev pub newline : ℕ
newline = 10

-- The step counter does not hold a number; the text that it holds instead.
pub data StepError : Type 0 where
  corrupt : Bytes → StepError

-- InitStepCounter
unfoldable pub init_step_counter : Option Bytes → Option Bytes
init_step_counter file = some (codes "-1" ++ (newline ∷ []))

-- An int plus one, which wraps around at 2^63.
unfoldable pub add_one : ℤ → ℤ
add_one (pos n) = if leb (suc n) max_int then pos (suc n) else negsuc max_int
add_one (negsuc zero) = pos 0
add_one (negsuc (suc n)) = negsuc n

parse_last : Bytes → Option ℤ → Result StepError ℤ
unfolding add_one
parse_last s none = err (corrupt s)
parse_last s (some last) = ok (add_one last)

-- The trimmed text of the file, which is no number if it is empty: the id behind `-1`.
next_of : Bytes → Result StepError ℤ
unfolding parse_last atoi
next_of [] = ok (pos 0)
next_of (c ∷ s) = parse_last (c ∷ s) (atoi (c ∷ s))

-- PeekStep
unfoldable pub peek_step : Option Bytes → Result StepError ℤ
unfolding next_of trim_space
peek_step none = ok (pos 0)
peek_step (some content) = next_of (trim_space content)

-- What NextStep reads: the file, which it makes if there is none, up to 64 bytes.
read_buffer : Option Bytes → Bytes
read_buffer none = []
read_buffer (some content) = take 64 content

-- A file that is opened with O_CREATE.
unfoldable pub opened : Option Bytes → Bytes
opened none = []
opened (some content) = content

write_back : Bytes → Result StepError ℤ → Result StepError ℤ × Option Bytes
unfolding itoa
write_back content (err e) = (err e, some content)
write_back content (ok next) = (ok next, some (itoa next ++ (newline ∷ [])))

-- NextStep: the id or the error, and the file behind the call.
unfoldable pub next_step : Option Bytes → Result StepError ℤ × Option Bytes
unfolding write_back next_of read_buffer opened trim_space
next_step file = write_back (opened file) (next_of (trim_space (read_buffer file)))
