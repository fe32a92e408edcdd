-- ===== src/Encoders/Rle/RoundTrip.antt =====
-- CompressCounts and ExpandCounts of internal/encoders/rle.go, one after the other.
use slurm_shim.Common.{
  ℕ, zero, suc, ◌+◌, ◌-◌, ◌≤◌, ◌<◌, true, false, List, [], ◌∷◌, ◌++◌, append_assoc, some, ◌≡◌, ◌≢◌,
  refl, sym, ap, ◌∙◌, arith, ◌==◌, ltb, ok, length, length-append, take, drop, replicate, All,
  Bool-cases, inl, inr,
}
use slurm_shim.Common.Int.{ℤ, pos, negsuc}
use slurm_shim.Text.Bytes.{
  Bytes, IsDigit, Lacks, has_prefix, has_suffix, All-append, All-imp, index_byte-append,
  index_byte-Lacks, take-append_length, drop-append_length, drop-drop,
}
use slurm_shim.Text.Split.{split, join, split-join}
use slurm_shim.Text.Decimal.{itoa_ℕ, itoa, max_int, InInt, atoi-itoa, itoa_ℕ-IsDigit, itoa_ℕ-ne-nil}
use slurm_shim.Encoders.Rle.{
  int_eq, run_term, compress_from, compress_counts, slice, run_at, value_of, repeat_of, parse_run,
  expand_terms, expand_counts,
}

-- The bytes of a decimal print.
abbrev IsSigned : ℕ → Type 0
IsSigned c = (c ≢ b',') × (c ≢ b'(')

itoa_ℕ-IsSigned : (n : ℕ) → All IsSigned (itoa_ℕ n)
itoa_ℕ-IsSigned n =
    All-imp IsDigit IsSigned (λ c h. (omega arith, omega arith)) (itoa_ℕ n) (itoa_ℕ-IsDigit n)

itoa-IsSigned : (z : ℤ) → All IsSigned (itoa z)
unfolding itoa
itoa-IsSigned (pos n) = itoa_ℕ-IsSigned n
itoa-IsSigned (negsuc n) = ((omega arith, omega arith), itoa_ℕ-IsSigned (suc n))

itoa-ne-nil : (z : ℤ) → itoa z ≢ []
unfolding itoa
itoa-ne-nil (pos n) = itoa_ℕ-ne-nil n
itoa-ne-nil (negsuc n) = cc

itoa_no_open : (z : ℤ) → Lacks b'(' (itoa z)
itoa_no_open z = All-imp IsSigned (λ c. c ≢ b'(') (λ c h. h.1) (itoa z) (itoa-IsSigned z)

itoa_no_comma : (z : ℤ) → Lacks b',' (itoa z)
itoa_no_comma z = All-imp IsSigned (λ c. c ≢ b',') (λ c h. h.0) (itoa z) (itoa-IsSigned z)

itoa_ℕ_no_comma : (n : ℕ) → Lacks b',' (itoa_ℕ n)
itoa_ℕ_no_comma n = All-imp IsSigned (λ c. c ≢ b',') (λ c h. h.0) (itoa_ℕ n) (itoa_ℕ-IsSigned n)

run_term-Lacks : (v : ℤ) (k : ℕ) → Lacks b',' (run_term v k)
unfolding run_term
run_term-Lacks v k = elim (Bool-cases (k == 1)) [
  | inl one ↦ rw one (itoa_no_comma v)
  | inr more ↦ rw more (
      All-append _ (itoa v) _ (itoa_no_comma v) (
        omega arith,
        (omega arith, All-append _ (itoa_ℕ k) (b')' ∷ []) (itoa_ℕ_no_comma k) (omega arith, tt)),
      ))
]

append-ne-nil : (s t : Bytes) → s ≢ [] → s ++ t ≢ []
append-ne-nil [] t h = absurd (h refl)
append-ne-nil (c ∷ s) t h = cc

run_term-ne-nil : (v : ℤ) (k : ℕ) → run_term v k ≢ []
unfolding run_term
run_term-ne-nil v k = elim (Bool-cases (k == 1)) [
  | inl one ↦ rw one (itoa-ne-nil v)
  | inr more ↦ rw more (append-ne-nil (itoa v) _ (itoa-ne-nil v))
]

has_suffix-append : (s : Bytes) (c : ℕ) → has_suffix (s ++ c ∷ []) (c ∷ []) ≡ true
unfolding has_suffix
has_suffix-append s c =
    let l : length (s ++ c ∷ []) - 1 ≡ length s = omega (arith, length-append s (c ∷ [])) in
    rw (l, drop-append_length s (c ∷ [])) (ground (arith, length-append s (c ∷ [])))

-- A term with brackets, taken apart the way parseRun does: `n` is the value, `k` the repeat count.
bracketed : Bytes → Bytes → Bytes
bracketed n k = n ++ (b'(' ∷ b'x' ∷ (k ++ (b')' ∷ [])))

bracketed_suffix : (n k : Bytes) → has_suffix (bracketed n k) (b')' ∷ []) ≡ true
unfolding bracketed
bracketed_suffix n k =
    let e : n ++ (b'(' ∷ b'x' ∷ (k ++ (b')' ∷ []))) ≡ (n ++ (b'(' ∷ b'x' ∷ k)) ++ b')' ∷ [] =
      sym (append_assoc n (b'(' ∷ b'x' ∷ k) (b')' ∷ [])) in
    rw e (has_suffix-append (n ++ (b'(' ∷ b'x' ∷ k)) b')')

bracketed_prefix :
    (n k : Bytes) → has_prefix (drop (length n) (bracketed n k)) (b'(' ∷ b'x' ∷ []) ≡ true
unfolding bracketed has_prefix
bracketed_prefix n k = rw (drop-append_length n (b'(' ∷ b'x' ∷ (k ++ (b')' ∷ [])))) refl

bracketed_repeat :
    (n k : Bytes) → slice (bracketed n k) (length n + 2) (length (bracketed n k) - 1) ≡ k
unfolding bracketed slice
bracketed_repeat n k =
    let rest = k ++ (b')' ∷ []) in
    let start : drop (length n + 2) (n ++ (b'(' ∷ b'x' ∷ rest)) ≡ rest =
      drop-drop (length n) 2 (n ++ (b'(' ∷ b'x' ∷ rest))
      ∙ ap (drop 2) (drop-append_length n (b'(' ∷ b'x' ∷ rest)) in
    let wide : length (n ++ (b'(' ∷ b'x' ∷ rest)) - 1 - (length n + 2) ≡ length k =
      omega (arith, length-append n (b'(' ∷ b'x' ∷ rest), length-append k (b')' ∷ [])) in
    rw (wide, start) (take-append_length k (b')' ∷ []))

run_at-bracketed :
    (v : ℤ) (k : ℕ)
    → InInt v
    → 0 < k
    → k ≤ max_int
    → run_at (bracketed (itoa v) (itoa (pos k))) (some (length (itoa v))) ≡ ok (v, k)
unfolding run_at value_of repeat_of
run_at-bracketed v k hv hk hm =
    let n = itoa v in
    let m = itoa (pos k) in
    let number : take (length n) (bracketed n m) ≡ n =
      unfold bracketed in take-append_length n (b'(' ∷ b'x' ∷ (m ++ (b')' ∷ []))) in
    let not_small : ltb k 1 ≡ false = ground arith in
    rw (
      bracketed_suffix n m,
      bracketed_prefix n m,
      number,
      atoi-itoa v hv,
      bracketed_repeat n m,
      atoi-itoa (pos k) hm,
      not_small,
    )

-- One term is read back.
parse_run-run_term :
    (v : ℤ) (k : ℕ) → InInt v → 0 < k → k ≤ max_int → parse_run (run_term v k) ≡ ok (v, k)
unfolding parse_run run_term
parse_run-run_term v k hv hk hm = elim (Bool-cases (k == 1)) [
  | inl one ↦
      let e : 1 ≡ k = ground arith in
      rw (one, index_byte-Lacks (itoa v) b'(' (itoa_no_open v))
        (unfold run_at in rw (atoi-itoa v hv) (ap (λ j. ok (v, j)) e))
  | inr more ↦
      rw (more, index_byte-append (itoa v) (b'x' ∷ (itoa_ℕ k ++ (b')' ∷ []))) b'(' (itoa_no_open v))
        (unfold bracketed itoa in run_at-bracketed v k hv hk hm)
]

int_eq→eq : (a b : ℤ) → int_eq a b ≡ true → a ≡ b
unfolding int_eq
int_eq→eq (pos a) (pos b) h = ground arith
int_eq→eq (negsuc a) (negsuc b) h = ground arith
int_eq→eq (pos a) (negsuc b) h = cc
int_eq→eq (negsuc a) (pos b) h = cc

replicate_snoc :
    (k : ℕ) (v : ℤ) (xs : List ℤ) → replicate (k + 1) v ++ xs ≡ replicate k v ++ (v ∷ xs)
replicate_snoc zero v xs = refl
replicate_snoc (suc k) v xs =
    let e : suc k + 1 ≡ suc (k + 1) = omega arith in rw e (ap (λ r. v ∷ r) (replicate_snoc k v xs))

expand_cons :
    (part : Bytes) (parts : List Bytes) (v : ℤ) (k : ℕ) (out : List ℤ)
    → parse_run part ≡ ok (v, k)
    → expand_terms parts ≡ ok out
    → expand_terms (part ∷ parts) ≡ ok (replicate k v ++ out)
unfolding expand_terms
expand_cons part parts v k out p q = rw (p, q)

-- The scan: its terms are read back as the copies seen and the values still to come.
expand-compress_from :
    (v : ℤ) (k : ℕ) (xs : List ℤ)
    → InInt v
    → 0 < k
    → All InInt xs
    → k + length xs ≤ max_int
    → expand_terms (compress_from v k xs) ≡ ok (replicate k v ++ xs)
unfolding compress_from
expand-compress_from v k [] hv hk a h =
    expand_cons (run_term v k) [] v k [] (parse_run-run_term v k hv hk (omega arith))
      (unfold expand_terms in refl)
expand-compress_from v k (x ∷ xs) hv hk (hx, a) h = elim (Bool-cases (int_eq x v)) [
  | inl same ↦
      let e : x ≡ v = int_eq→eq x v same in
      rw (same, compress_from)
        (expand-compress_from v (k + 1) xs hv (omega arith) a (omega arith)
          ∙ ap ok (replicate_snoc k v xs ∙ ap (λ z. replicate k v ++ (z ∷ xs)) (sym e)))
  | inr new ↦
      rw (new, compress_from)
        (expand_cons (run_term v k) (compress_from x 1 xs) v k (x ∷ xs)
          (parse_run-run_term v k hv hk (omega arith))
          (expand-compress_from x 1 xs hx (omega arith) a (omega arith)))
]

compress_from-Lacks : (v : ℤ) (k : ℕ) (xs : List ℤ) → All (Lacks b',') (compress_from v k xs)
unfolding compress_from
compress_from-Lacks v k [] = (run_term-Lacks v k, tt)
compress_from-Lacks v k (x ∷ xs) = elim (Bool-cases (int_eq x v)) [
  | inl same ↦ rw (same, compress_from) (compress_from-Lacks v (k + 1) xs)
  | inr new ↦ rw (new, compress_from) (run_term-Lacks v k, compress_from-Lacks x 1 xs)
]

-- The terms are a list of texts that are not empty.
abbrev Filled : List Bytes → Type 0
Filled [] = ⊥
Filled (p ∷ ps) = p ≢ []

compress_from-Filled : (v : ℤ) (k : ℕ) (xs : List ℤ) → Filled (compress_from v k xs)
unfolding compress_from
compress_from-Filled v k [] = run_term-ne-nil v k
compress_from-Filled v k (x ∷ xs) = elim (Bool-cases (int_eq x v)) [
  | inl same ↦ rw (same, compress_from) (compress_from-Filled v (k + 1) xs)
  | inr new ↦ rw (new, compress_from) (run_term-ne-nil v k)
]

Filled-ne-nil : (ps : List Bytes) → Filled ps → ps ≢ []
Filled-ne-nil [] f = absurd f
Filled-ne-nil (p ∷ ps) f = cc

join-ne-nil : (ps : List Bytes) → Filled ps → join ps b',' ≢ []
unfolding join
join-ne-nil [] f = absurd f
join-ne-nil (p ∷ []) f = f
join-ne-nil (p ∷ q ∷ ps) f = append-ne-nil p _ f

expand_counts-terms : (s : Bytes) → s ≢ [] → expand_counts s ≡ expand_terms (split s b',')
unfolding expand_counts
expand_counts-terms [] h = absurd (h refl)
expand_counts-terms (c ∷ s) h = refl

-- Any list of counts that is not empty is read back from its run-length form, in its order; the
-- counts and the length of the list are in the range of a 64-bit `int`.
pub expand_counts-compress_counts :
    (counts : List ℤ)
    → counts ≢ []
    → All InInt counts
    → length counts ≤ max_int
    → expand_counts (compress_counts counts) ≡ ok counts
unfolding compress_counts
expand_counts-compress_counts [] h a l = absurd (h refl)
expand_counts-compress_counts (v ∷ xs) h (hv, a) l =
    let terms = compress_from v 1 xs in
    let f = compress_from-Filled v 1 xs in
    expand_counts-terms (join terms b',') (join-ne-nil terms f)
    ∙ ap expand_terms (split-join terms b',' (Filled-ne-nil terms f) (compress_from-Lacks v 1 xs))
    ∙ expand-compress_from v 1 xs hv (omega arith) a (omega arith)
