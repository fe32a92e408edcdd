-- ===== src/Mux/Pattern.antt =====
-- internal/mux/pattern.go.
pub mod Tokens
use slurm_shim.Common.{ℕ, Bool, true, false, List, [], ◌∷◌, ◌++◌, ◌==◌, if◌then◌else◌}
use slurm_shim.Common.Int.{ℤ}
use slurm_shim.Text.Bytes.{Bytes, is_digit}
use slurm_shim.Text.Decimal.{itoa}

pub record PatternFields : Type 0 where
  pub job_id : ℤ
  pub array_job_id : ℤ
  pub array_task_id : ℤ
  pub step_id : ℤ
  pub rank : ℤ
  pub node_id : ℤ
  pub node_name : Bytes
  pub job_name : Bytes
  pub user : Bytes

-- The switch on the verb.
unfoldable pub verb_text : PatternFields → ℕ → Bytes
unfolding itoa
verb_text f c =
    if c == b'j'
    then itoa f.job_id
    else if c == b'J'
    then itoa f.job_id ++ (b'.' ∷ itoa f.step_id)
    else if c == b'A'
    then itoa f.array_job_id
    else if c == b'a'
    then itoa f.array_task_id
    else if c == b't'
    then itoa f.rank
    else if c == b'n'
    then itoa f.node_id
    else if c == b'N'
    then f.node_name
    else if c == b's'
    then itoa f.step_id
    else if c == b'x'
    then f.job_name
    else if c == b'u'
    then f.user
    else if c == b'%'
    then b'%' ∷ []
    else b'%' ∷ c ∷ []

-- The rest of a pattern, in front of a verb and its width or not.
expand_from : PatternFields → Bool → Bytes → Bytes
unfolding verb_text
expand_from f false [] = []
expand_from f true [] = b'%' ∷ []
expand_from f false (c ∷ s) =
    let plain = expand_from f false s in
    let verb = expand_from f true s in if c == b'%' then verb else c ∷ plain
expand_from f true (c ∷ s) =
    let plain = expand_from f false s in
    let verb = expand_from f true s in if is_digit c then verb else verb_text f c ++ plain

-- ExpandPattern
unfoldable pub expand_pattern : Bytes → PatternFields → Bytes
unfolding expand_from
expand_pattern pattern f = expand_from f false pattern
