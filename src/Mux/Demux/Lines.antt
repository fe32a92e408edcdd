-- ===== src/Mux/Demux/Lines.antt =====
-- The lines that internal/mux/demux.go puts together.
use slurm_shim.Common.{
  ℕ, ◌+◌, Bool, true, false, ◌&&◌, not, List, [], ◌∷◌, ◌++◌, append_assoc, append-nil, ◌≡◌, refl,
  sym, ap, ◌∙◌, if◌then◌else◌, Bool-cases, inl, inr,
}
use slurm_shim.Text.Bytes.{Bytes}
use slurm_shim.Proto.Frame.{Frame, frame_out}
use slurm_shim.Mux.Demux.{Key, is_open, has_eol, label_of, line_of, handle_all}
use slurm_shim.Mux.Demux.Streams.{written, frames_of, text_of, written-text_of}

-- A line as its chunks: those that leave it open, and the last one.
abbrev pub Line : Type 0
Line = List Bytes × Bytes

abbrev pub chunks : Line → Bytes
chunks ([], last) = last
chunks (c ∷ cs, last) = c ++ chunks (cs, last)

-- The frames that a stepper sends for a line: FlagEOL stands on the last chunk.
abbrev pub frame : Key → ℕ → Bytes → Frame
frame k eol payload = record {
  type = frame_out;
  rank = k.rank;
  flags = (if k.stderr then 1 else 0) + eol;
  payload = payload;
}

abbrev pub frames_of_line : Key → Line → List Frame
frames_of_line k ([], last) = frame k 2 last ∷ []
frames_of_line k (c ∷ cs, last) = frame k 0 c ∷ frames_of_line k (cs, last)

abbrev pub frames_of_lines : Key → List Line → List Frame
frames_of_lines k [] = []
frames_of_lines k (l ∷ ls) = frames_of_line k l ++ frames_of_lines k ls

-- The lines as text: with its label in front and one newline behind each.
abbrev pub lines_text : Bool → Key → List Line → Bytes
lines_text label k [] = []
lines_text label k (l ∷ ls) =
    (if label then label_of k.rank else []) ++ (chunks l ++ (10 ∷ lines_text label k ls))

ends_line : (k : Key) (p : Bytes) → has_eol (frame k 2 p).flags ≡ true
ends_line k p = elim (Bool-cases k.stderr) [ inl e ↦ rw e refl | inr e ↦ rw e refl ]

leaves_open : (k : Key) (p : Bytes) → has_eol (frame k 0 p).flags ≡ false
leaves_open k p = elim (Bool-cases k.stderr) [ inl e ↦ rw e refl | inr e ↦ rw e refl ]

no_label_inside :
    (label : Bool) (rank : ℕ) → ◌≡◌ {A = Bytes} (if label && false then label_of rank else []) []
no_label_inside true rank = refl
no_label_inside false rank = refl

text_of-line :
    (label open_ : Bool) (k : Key) (cs : List Bytes) (last : Bytes) (rest : List Frame)
    → text_of label open_ (frames_of_line k (cs, last) ++ rest)
      ≡ (if label && not open_ then label_of k.rank else [])
        ++ (chunks (cs, last) ++ (10 ∷ text_of label false rest))
unfolding text_of line_of
text_of-line label open_ k [] last rest = rw (ends_line k last) (
    append_assoc (if label && not open_ then label_of k.rank else []) (last ++ (10 ∷ []))
      (text_of label false rest)
    ∙ ap (λ (r : Bytes). (if label && not open_ then label_of k.rank else []) ++ r)
        (append_assoc last (10 ∷ []) (text_of label false rest)))
text_of-line label open_ k (c ∷ cs) last rest =
    let inside = text_of-line label true k cs last rest in
    rw (leaves_open k c, inside, no_label_inside label k.rank, append-nil c)
      (append_assoc (if label && not open_ then label_of k.rank else []) c _
        ∙ ap (λ (r : Bytes). (if label && not open_ then label_of k.rank else []) ++ r)
            (sym (append_assoc c (chunks (cs, last)) _)))

and-true_right : (b : Bool) → (b && true) ≡ b
and-true_right true = refl
and-true_right false = refl

text_of-lines :
    (label : Bool) (k : Key) (ls : List Line)
    → text_of label false (frames_of_lines k ls) ≡ lines_text label k ls
text_of-lines label k [] = unfold text_of in refl
text_of-lines label k ((cs, last) ∷ ls) =
    text_of-line label false k cs last (frames_of_lines k ls)
    ∙ rw (and-true_right label, text_of-lines label k ls) refl

-- Whatever frames of other ranks and of the other stream arrive in between, and in whatever pieces
-- the lines of one rank's stream arrive: what is written for it is each of its lines whole, in
-- order, with one newline behind it and, with -l, its label once in front.
pub demux_lines :
    (label : Bool) (k : Key) (ls : List Line) (fs : List Frame)
    → frames_of k fs ≡ frames_of_lines k ls
    → written k (handle_all label [] fs).1 ≡ lines_text label k ls
demux_lines label k ls fs h =
    written-text_of label k fs []
    ∙ unfold is_open in ap (text_of label false) h ∙ text_of-lines label k ls
