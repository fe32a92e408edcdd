-- ===== src/Text/Int64.antt =====
-- Go's 64-bit `int` where a computation can leave its range, and the comparison of signed numbers.
use slurm_shim.Common.{
  ℕ, ◌+◌, ◌-◌, ◌%◌, ◌^◌, ◌≤◌, Bool, true, false, ◌≡◌, refl, arith, ltb, leb, if◌then◌else◌,
  Bool-cases, inl, inr, if-true,
}
use slurm_shim.Common.Int.{ℤ, pos, negsuc, pos_part}
use slurm_shim.Text.Decimal.{max_int}

-- The `int` that arithmetic on natural numbers with the result `n` leaves behind. Sums and products
-- wrap around modulo 2^64 at every step, so one reduction at the end gives the same.
unfoldable pub to_int : ℕ → ℤ
to_int n = if leb (n % 2 ^ 64) max_int then pos (n % 2 ^ 64) else negsuc (2 ^ 64 - 1 - n % 2 ^ 64)

-- The same for a signed result.
unfoldable pub wrap_int : ℤ → ℤ
unfolding to_int
wrap_int (pos n) = to_int n
wrap_int (negsuc n) = to_int (2 ^ 64 - 1 - n % 2 ^ 64)

-- a < b
abbrev pub int_lt : ℤ → ℤ → Bool
int_lt (pos a) (pos b) = ltb a b
int_lt (pos a) (negsuc b) = false
int_lt (negsuc a) (pos b) = true
int_lt (negsuc a) (negsuc b) = ltb b a

pub to_int-fits : (n : ℕ) → n ≤ max_int → to_int n ≡ pos n
unfolding to_int
to_int-fits n h =
    let e : n % 2 ^ 64 ≡ n = omega arith in
    rw e (if-true (leb n max_int) (pos n) (negsuc (2 ^ 64 - 1 - n)) (ground arith))

-- A number that wraps around only gets smaller.
pub pos_part-to_int : (n : ℕ) → pos_part (to_int n) ≤ n
unfolding to_int
pos_part-to_int n = elim (Bool-cases (leb (n % 2 ^ 64) max_int)) [
  | inl fits ↦ rw fits (omega arith)
  | inr wraps ↦ rw wraps (omega arith)
]

wrapped :
    (to_int (2 ^ 63) ≡ negsuc max_int)
    × (to_int (2 ^ 64 + 5) ≡ pos 5)
    × (wrap_int (negsuc (2 ^ 63)) ≡ pos max_int)
    × (wrap_int (negsuc 6) ≡ negsuc 6)
unfolding wrap_int
wrapped = (refl, refl, refl, refl)
