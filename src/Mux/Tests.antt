-- ===== src/Mux/Tests.antt =====
-- Runs of internal/mux, and its theorems applied to the interleaved output of two ranks.
use slurm_shim.Common.{true, false, List, [], ◌∷◌, ◌++◌, ◌≡◌, refl, arith, if◌then◌else◌, All}
use slurm_shim.Common.Int.{pos}
use slurm_shim.Text.Bytes.{codes}
use slurm_shim.Proto.Frame.{Frame}
use slurm_shim.Mux.Demux.{Key, is_open, handle_all, flush}
use slurm_shim.Mux.Demux.Streams.{written, frames_of}
use slurm_shim.Mux.Demux.Lines.{frame, lines_text, demux_lines}
use slurm_shim.Mux.Demux.Flush.{leaves_open, flush_ends_lines}
use slurm_shim.Mux.Pattern.{PatternFields, expand_pattern}
use slurm_shim.Mux.Pattern.Tokens.{
  Token, literal, verb, other_letter, of_rank, percent_sign, IsToken, spelled, values,
  expand_pattern-spelled,
}

abbrev first : Key
first = record { rank = 0; stderr = false }

abbrev second : Key
second = record { rank = 1; stderr = false }

abbrev arrival : List Frame
arrival =
    frame first 0 (codes "he")
    ∷ frame second 2 (codes "hi")
    ∷ frame first 2 (codes "llo")
    ∷ frame second 0 (codes "x")
    ∷ []

demux_lines_example :
    written first (handle_all true [] arrival).1
    ≡ lines_text true first ((codes "he" ∷ [], codes "llo") ∷ [])
unfolding slurm_shim.Mux.Demux.key_of
demux_lines_example = demux_lines true first ((codes "he" ∷ [], codes "llo") ∷ []) arrival refl

labelled :
    lines_text true first ((codes "he" ∷ [], codes "llo") ∷ []) ≡ codes "0: hello" ++ (10 ∷ [])
unfolding slurm_shim.Text.Decimal.itoa_ℕ
labelled = refl

flush_ends_lines_example :
    (written second (flush (handle_all true [] arrival).0).1
      ≡ (if leaves_open false (frames_of second arrival) then 10 ∷ [] else []))
    × (is_open second (flush (handle_all true [] arrival).0).0 ≡ false)
flush_ends_lines_example = flush_ends_lines true arrival second

abbrev fields_7 : PatternFields
fields_7 = record {
  job_id = pos 7;
  array_job_id = pos 7;
  array_task_id = pos 0;
  step_id = pos 2;
  rank = pos 11;
  node_id = pos 3;
  node_name = codes "n3";
  job_name = codes "train";
  user = codes "ada";
}

abbrev tokens : List Token
tokens =
    literal (codes "out-")
    ∷ verb (codes "3") of_rank
    ∷ verb [] percent_sign
    ∷ other_letter [] b'z'
    ∷ []

tokens-IsToken : All IsToken tokens
tokens-IsToken = ground arith

expand_pattern-spelled_example : expand_pattern (spelled tokens) fields_7 ≡ values fields_7 tokens
expand_pattern-spelled_example = expand_pattern-spelled fields_7 tokens tokens-IsToken

step_pattern : expand_pattern (codes "%x-%J.%03t%z%") fields_7 ≡ codes "train-7.2.11%z%"
unfolding expand_pattern
step_pattern = refl
