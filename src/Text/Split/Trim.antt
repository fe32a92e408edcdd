-- ===== src/Text/Split/Trim.antt =====
-- strings.TrimSpace on a printed number and a newline.
use slurm_shim.Common.{ℕ, suc, false, [], ◌∷◌, ◌++◌, ◌≡◌, ◌≢◌, refl, arith, All}
use slurm_shim.Common.Int.{ℤ, pos, negsuc}
use slurm_shim.Text.Bytes.{Bytes, IsDigit, All-imp}
use slurm_shim.Text.Split.{is_space, trim_left, trim_right, trim_space}
use slurm_shim.Text.Decimal.{itoa, itoa_ℕ, itoa_ℕ-IsDigit, itoa_ℕ-ne-nil}

abbrev pub NotSpace : ℕ → Type 0
NotSpace c = is_space c ≡ false

trim_left-NotSpace : (s t : Bytes) → s ≢ [] → All NotSpace s → trim_left (s ++ t) ≡ s ++ t
unfolding trim_left
trim_left-NotSpace [] t n h = absurd (n refl)
trim_left-NotSpace (c ∷ s) t n (h, hs) = rw h refl

trim_right-line : (s : Bytes) → All NotSpace s → trim_right (s ++ 10 ∷ []) ≡ s
unfolding trim_right
trim_right-line [] h = refl
trim_right-line (c ∷ []) (h, hs) = rw h refl
trim_right-line (c ∷ d ∷ s) (h, hs) = rw (trim_right-line (d ∷ s) hs) refl

pub trim_space-line : (s : Bytes) → s ≢ [] → All NotSpace s → trim_space (s ++ 10 ∷ []) ≡ s
unfolding trim_space
trim_space-line s n h = rw (trim_left-NotSpace s (10 ∷ []) n h) (trim_right-line s h)

digit_NotSpace : (c : ℕ) → IsDigit c → NotSpace c
digit_NotSpace c h = ground arith

pub itoa-NotSpace : (z : ℤ) → (itoa z ≢ []) × All NotSpace (itoa z)
unfolding itoa
itoa-NotSpace (pos n) =
    (itoa_ℕ-ne-nil n, All-imp IsDigit NotSpace digit_NotSpace (itoa_ℕ n) (itoa_ℕ-IsDigit n))
itoa-NotSpace (negsuc n) =
    (cc, (refl, All-imp IsDigit NotSpace digit_NotSpace (itoa_ℕ (suc n)) (itoa_ℕ-IsDigit (suc n))))
