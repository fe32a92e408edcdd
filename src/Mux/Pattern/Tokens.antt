-- ===== src/Mux/Pattern/Tokens.antt =====
-- What internal/mux/pattern.go makes of a pattern, token by token.
use slurm_shim.Common.{ℕ, true, false, List, [], ◌∷◌, ◌++◌, ◌≡◌, refl, ap, ◌∙◌, arith, ◌==◌, All}
use mathlib.Core.Path.{ap₂}
use slurm_shim.Text.Decimal.{itoa}
use slurm_shim.Text.Bytes.{Bytes, codes, is_digit, IsDigit, Lacks}
use slurm_shim.Mux.Pattern.{PatternFields, verb_text, expand_from, expand_pattern}

-- What a pattern can ask for.
pub data Verb : Type 0 where
  of_job of_job_and_step of_array of_array_task of_rank of_node : Verb
  of_node_name of_step of_job_name of_user percent_sign : Verb

-- The letter of each, as SLURM's manual of srun has them.
abbrev pub letter : Verb → ℕ
letter of_job = b'j'
letter of_job_and_step = b'J'
letter of_array = b'A'
letter of_array_task = b'a'
letter of_rank = b't'
letter of_node = b'n'
letter of_node_name = b'N'
letter of_step = b's'
letter of_job_name = b'x'
letter of_user = b'u'
letter percent_sign = b'%'

abbrev pub letters : Bytes
letters = codes "jJAatnNsxu%"

-- The text that it stands for.
abbrev pub text : PatternFields → Verb → Bytes
text f of_job = itoa f.job_id
text f of_job_and_step = itoa f.job_id ++ (codes "." ++ itoa f.step_id)
text f of_array = itoa f.array_job_id
text f of_array_task = itoa f.array_task_id
text f of_rank = itoa f.rank
text f of_node = itoa f.node_id
text f of_node_name = f.node_name
text f of_step = itoa f.step_id
text f of_job_name = f.job_name
text f of_user = f.user
text f percent_sign = codes "%"

-- A piece of text without `%`, a verb with the digits of its width, or `%` with another letter.
pub data Token : Type 0 where
  literal : Bytes → Token
  verb : Bytes → Verb → Token
  other_letter : Bytes → ℕ → Token

abbrev pub IsToken : Token → Type 0
IsToken (literal s) = Lacks b'%' s
IsToken (verb width v) = All IsDigit width
IsToken (other_letter width c) =
    All IsDigit width × (is_digit c ≡ false) × All (λ (l : ℕ). (c == l) ≡ false) letters

-- The pattern that the tokens spell.
abbrev pub spelled : List Token → Bytes
spelled [] = []
spelled (literal s ∷ ts) = s ++ spelled ts
spelled (verb width v ∷ ts) = b'%' ∷ (width ++ (letter v ∷ spelled ts))
spelled (other_letter width c ∷ ts) = b'%' ∷ (width ++ (c ∷ spelled ts))

-- The texts that the tokens stand for.
abbrev pub values : PatternFields → List Token → Bytes
values f [] = []
values f (literal s ∷ ts) = s ++ values f ts
values f (verb width v ∷ ts) = text f v ++ values f ts
values f (other_letter width c ∷ ts) = b'%' ∷ c ∷ values f ts

verb_text-text : (f : PatternFields) (v : Verb) → verb_text f (letter v) ≡ text f v
unfolding verb_text
verb_text-text f of_job = refl
verb_text-text f of_job_and_step = refl
verb_text-text f of_array = refl
verb_text-text f of_array_task = refl
verb_text-text f of_rank = refl
verb_text-text f of_node = refl
verb_text-text f of_node_name = refl
verb_text-text f of_step = refl
verb_text-text f of_job_name = refl
verb_text-text f of_user = refl
verb_text-text f percent_sign = refl

verb_text-other :
    (f : PatternFields) (c : ℕ)
    → All (λ (l : ℕ). (c == l) ≡ false) letters
    → verb_text f c ≡ b'%' ∷ c ∷ []
unfolding verb_text
verb_text-other f c (j, (jj, (aa, (a, (t, (n, (nn, (s, (x, (u, (p, done))))))))))) =
    rw (j, jj, aa, a, t, n, nn, s, x, u, p) refl

letter_no_digit : (v : Verb) → is_digit (letter v) ≡ false
letter_no_digit of_job = refl
letter_no_digit of_job_and_step = refl
letter_no_digit of_array = refl
letter_no_digit of_array_task = refl
letter_no_digit of_rank = refl
letter_no_digit of_node = refl
letter_no_digit of_node_name = refl
letter_no_digit of_step = refl
letter_no_digit of_job_name = refl
letter_no_digit of_user = refl
letter_no_digit percent_sign = refl

expand_from-literal :
    (f : PatternFields) (s t : Bytes)
    → Lacks b'%' s
    → expand_from f false (s ++ t) ≡ s ++ expand_from f false t
unfolding expand_from
expand_from-literal f [] t h = refl
expand_from-literal f (c ∷ s) t (h, hs) =
    let e : (c == b'%') ≡ false = ground arith in
    rw e (ap (λ (r : Bytes). c ∷ r) (expand_from-literal f s t hs))

expand_from-verb :
    (f : PatternFields) (width : Bytes) (c : ℕ) (t : Bytes)
    → All IsDigit width
    → is_digit c ≡ false
    → expand_from f true (width ++ (c ∷ t)) ≡ verb_text f c ++ expand_from f false t
unfolding expand_from
expand_from-verb f [] c t h n = rw n refl
expand_from-verb f (d ∷ width) c t (h, hs) n =
    let e : is_digit d ≡ true = ground arith in rw e (expand_from-verb f width c t hs n)

-- A pattern expands to what its tokens stand for: text without `%` stays as it is; %j, %J, %A, %a, %t,
-- %n, %N, %s, %x, %u and %% give the job, the job and the step with a dot between, the array job, the
-- array task, the rank, the node's index and name, the step, the job's name, the user and a %,
-- whatever the width; and of any other letter that is no digit, the `%` and the letter stay.
pub expand_pattern-spelled :
    (f : PatternFields) (ts : List Token)
    → All IsToken ts
    → expand_pattern (spelled ts) f ≡ values f ts
unfolding expand_pattern expand_from
expand_pattern-spelled f [] h = refl
expand_pattern-spelled f (literal s ∷ ts) (h, hs) =
    expand_from-literal f s (spelled ts) h
    ∙ ap (λ (r : Bytes). s ++ r) (expand_pattern-spelled f ts hs)
expand_pattern-spelled f (verb width v ∷ ts) (h, hs) =
    expand_from-verb f width (letter v) (spelled ts) h (letter_no_digit v)
    ∙ ap₂ ◌++◌ (verb_text-text f v) (expand_pattern-spelled f ts hs)
expand_pattern-spelled f (other_letter width c ∷ ts) ((h, n, o), hs) =
    expand_from-verb f width c (spelled ts) h n
    ∙ ap₂ ◌++◌ (verb_text-other f c o) (expand_pattern-spelled f ts hs)
