-- ===== src/Encoders/Rle.antt =====
-- internal/encoders/rle.go: CompressCounts, ExpandCounts and parseRun.
pub mod RoundTrip
use slurm_shim.Common.{
  ℕ, zero, suc, ◌+◌, ◌-◌, Bool, true, false, ◌&&◌, ◌||◌, not, List, [], ◌∷◌, ◌++◌, Option, none,
  some, ◌≡◌, refl, ◌==◌, ltb, if◌then◌else◌, Result, ok, err, ◌>>=◌, length, take, drop, replicate,
}
use slurm_shim.Common.Int.{ℤ, pos, negsuc}
use slurm_shim.Text.Bytes.{Bytes, codes, index_byte, has_prefix, has_suffix}
use slurm_shim.Text.Split.{split, join}
use slurm_shim.Text.Decimal.{itoa_ℕ, itoa, atoi}

unfoldable pub int_eq : ℤ → ℤ → Bool
int_eq (pos a) (pos b) = a == b
int_eq (negsuc a) (negsuc b) = a == b
int_eq _ _ = false

-- The term of `run` copies of `v`.
run_term : ℤ → ℕ → Bytes
run_term v run = if run == 1 then itoa v else itoa v ++ (b'(' ∷ b'x' ∷ (itoa_ℕ run ++ (b')' ∷ [])))

-- The scan from `i` with `run` copies of `v` seen: `j` moves on while the value is the same.
compress_from : ℤ → ℕ → List ℤ → List Bytes
unfolding int_eq run_term
compress_from v run [] = run_term v run ∷ []
compress_from v run (x ∷ xs) = elim (int_eq x v) [
  | true ↦ compress_from v (run + 1) xs
  | false ↦ run_term v run ∷ compress_from x 1 xs
]

unfoldable pub compress_counts : List ℤ → Bytes
unfolding compress_from
compress_counts [] = join [] b','
compress_counts (v ∷ counts) = join (compress_from v 1 counts) b','

-- ErrInvalidHostlist, with the term that its text shows.
pub data RleError : Type 0 where
  empty_input : RleError
  bad_count : Bytes → RleError
  bad_run : Bytes → RleError
  bad_repeat : Bytes → RleError

-- part[lo:hi]
slice : Bytes → ℕ → ℕ → Bytes
slice s lo hi = take (hi - lo) (drop lo s)

count_of : Bytes → Option ℤ → ℕ → Result RleError (ℤ × ℕ)
count_of part none k = err (bad_count part)
count_of part (some v) k = ok (v, k)

-- The repeat count behind the value `v`.
repeat_of : Bytes → ℤ → Option ℤ → Result RleError (ℤ × ℕ)
repeat_of part v none = err (bad_repeat part)
repeat_of part v (some (negsuc k)) = err (bad_repeat part)
repeat_of part v (some (pos k)) = if ltb k 1 then err (bad_repeat part) else ok (v, k)

value_of : Bytes → ℕ → Option ℤ → Result RleError (ℤ × ℕ)
unfolding repeat_of slice
value_of part open_at none = err (bad_count part)
value_of part open_at (some v) =
    repeat_of part v (atoi (slice part (open_at + 2) (length part - 1)))

run_at : Bytes → Option ℕ → Result RleError (ℤ × ℕ)
unfolding count_of value_of
run_at part none = count_of part (atoi part) 1
run_at part (some i) =
    if not (has_suffix part (b')' ∷ [])) || not (has_prefix (drop i part) (b'(' ∷ b'x' ∷ []))
    then err (bad_run part)
    else value_of part i (atoi (take i part))

-- parseRun: "v" or "v(xk)".
parse_run : Bytes → Result RleError (ℤ × ℕ)
unfolding run_at
parse_run part = run_at part (index_byte part b'(')

expand_terms : List Bytes → Result RleError (List ℤ)
unfolding parse_run
expand_terms [] = ok []
expand_terms (part ∷ parts) = do
  (value, reps) ← parse_run part
  rest ← expand_terms parts
  ok (replicate reps value ++ rest)

unfoldable pub expand_counts : Bytes → Result RleError (List ℤ)
unfolding expand_terms
expand_counts [] = err empty_input
expand_counts (c ∷ s) = expand_terms (split (c ∷ s) b',')

doc_example : compress_counts (pos 8 ∷ pos 8 ∷ pos 8 ∷ pos 4 ∷ []) ≡ codes "8(x3),4"
unfolding compress_counts join itoa
doc_example = refl

expanded : expand_counts (codes "8(x3),4") ≡ ok (pos 8 ∷ pos 8 ∷ pos 8 ∷ pos 4 ∷ [])
unfolding expand_counts split atoi index_byte has_prefix has_suffix
expanded = refl

refused :
    (expand_counts (codes "8(3)") ≡ err (bad_run (codes "8(3)")))
    × (expand_counts (codes "8(x0)") ≡ err (bad_repeat (codes "8(x0)")))
    × (expand_counts (codes "8,") ≡ err (bad_count []))
unfolding expand_counts split atoi index_byte has_prefix has_suffix
refused = (refl, refl, refl)
