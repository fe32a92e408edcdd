-- ===== src/Mux/Demux/Flush.antt =====
-- What Flush of internal/mux/demux.go writes.
use slurm_shim.Common.{
  Bool, true, false, not, List, [], ◌∷◌, ◌≡◌, refl, sym, ap, subst, ◌∙◌, ◌==◌, if◌then◌else◌,
  Bool-cases, inl, inr, ◌/◌, ◌%◌,
}
use slurm_shim.Text.Bytes.{Bytes}
use slurm_shim.Proto.Frame.{Frame, frame_out}
use slurm_shim.Mux.Demux.{
  Key, key_eq, Midline, is_open, set_open, has_eol, key_of, handle, handle_all, flush,
}
use slurm_shim.Mux.Demux.Streams.{
  written, frames_of, is_output_of, handle-own, handle-other, key_eq→eq, key_eq_refl,
}

flush_closes : (k : Key) (m : Midline) → is_open k (flush m).0 ≡ false
unfolding is_open flush
flush_closes k [] = refl
flush_closes k ((k', o) ∷ m) = elim (Bool-cases (key_eq k' k)) [
  | inl e ↦ rw e refl
  | inr e ↦ rw e (flush_closes k m)
]

-- No entry of the map is of a key.
abbrev Absent : Key → Midline → Type 0
Absent k [] = Unit
Absent k ((k', o) ∷ m) = (key_eq k' k ≡ false) × Absent k m

-- Each key has one entry, as in a map.
abbrev IsMap : Midline → Type 0
IsMap [] = Unit
IsMap ((k, o) ∷ m) = Absent k m × IsMap m

set_open-Absent :
    (k q : Key) (b : Bool) (m : Midline)
    → key_eq k q ≡ false
    → Absent q m
    → Absent q (set_open k b m)
unfolding set_open
set_open-Absent k q b [] h a = (h, tt)
set_open-Absent k q b ((k', o) ∷ m) h (a, as_) = elim (Bool-cases (key_eq k' k)) [
  | inl e ↦ rw e (a, as_)
  | inr e ↦ rw e (a, set_open-Absent k q b m h as_)
]

key_eq_sym : (k q : Key) → key_eq k q ≡ false → key_eq q k ≡ false
key_eq_sym k q h = elim (Bool-cases (key_eq q k)) [
  | inl e ↦ cc (sym (key_eq_refl k) ∙ ap (λ (z : Key). key_eq k z) (sym (key_eq→eq q k e)) ∙ h)
  | inr e ↦ e
]

set_open-IsMap : (k : Key) (b : Bool) (m : Midline) → IsMap m → IsMap (set_open k b m)
unfolding set_open
set_open-IsMap k b [] h = (tt, tt)
set_open-IsMap k b ((k', o) ∷ m) (a, h) = elim (Bool-cases (key_eq k' k)) [
  | inl e ↦ rw e (a, h)
  | inr e ↦ rw e (set_open-Absent k k' b m (key_eq_sym k' k e) a, set_open-IsMap k b m h)
]

handle_all-IsMap :
    (label : Bool) (fs : List Frame) (m : Midline) → IsMap m → IsMap (handle_all label m fs).0
unfolding handle_all handle
handle_all-IsMap label [] m h = h
handle_all-IsMap label (f ∷ fs) m h = elim (Bool-cases (f.type == frame_out)) [
  | inl e ↦
      rw e (handle_all-IsMap label fs _ (set_open-IsMap (key_of f) (not (has_eol f.flags)) m h))
  | inr e ↦ rw e (handle_all-IsMap label fs m h)
]

flush-Absent : (k : Key) (m : Midline) → Absent k m → written k (flush m).1 ≡ []
unfolding flush
flush-Absent k [] a = refl
flush-Absent k ((k', true) ∷ m) (a, as_) = rw a (flush-Absent k m as_)
flush-Absent k ((k', false) ∷ m) (a, as_) = flush-Absent k m as_

newline_if : Bool → Bytes
newline_if true = 10 ∷ []
newline_if false = []

newline_if_lem : (b : Bool) → newline_if b ≡ (if b then 10 ∷ [] else [])
unfolding newline_if
newline_if_lem true = refl
newline_if_lem false = refl

flush-written : (k : Key) (m : Midline) → IsMap m → written k (flush m).1 ≡ newline_if (is_open k m)
unfolding flush is_open newline_if
flush-written k [] h = refl
flush-written k ((k', true) ∷ m) (a, h) = elim (Bool-cases (key_eq k' k)) [
  | inl e ↦
      let none_more = flush-Absent k m (subst (λ (z : Key). Absent z m) (key_eq→eq k' k e) a) in
      rw (e, none_more) refl
  | inr e ↦ rw e (flush-written k m h)
]
flush-written k ((k', false) ∷ m) (a, h) = elim (Bool-cases (key_eq k' k)) [
  | inl e ↦
      let none_more = flush-Absent k m (subst (λ (z : Key). Absent z m) (key_eq→eq k' k e) a) in
      rw (e, none_more) refl
  | inr e ↦ rw e (flush-written k m h)
]

-- Whether the last frame of a stream left its line open, `open_` before the first one.
abbrev pub leaves_open : Bool → List Frame → Bool
leaves_open open_ [] = open_
leaves_open open_ (f ∷ fs) = leaves_open (not (f.flags / 2 % 2 == 1)) fs

is_open-handle_all :
    (label : Bool) (k : Key) (fs : List Frame) (m : Midline)
    → is_open k (handle_all label m fs).0 ≡ leaves_open (is_open k m) (frames_of k fs)
unfolding handle_all
is_open-handle_all label k [] m = refl
is_open-handle_all label k (f ∷ fs) m = elim (Bool-cases (is_output_of k f)) [
  | inl own ↦
      is_open-handle_all label k fs (handle label m f).0
      ∙ rw ((handle-own label k m f own).0, own) refl
  | inr other ↦
      is_open-handle_all label k fs (handle label m f).0
      ∙ rw ((handle-other label k m f other).0, other) refl
]

-- Flush after any frames: for each rank's stream it writes one newline if the last output frame of
-- that rank and stream came without FlagEOL, and nothing otherwise, also if there was no such frame;
-- and no line is open behind it.
pub flush_ends_lines :
    (label : Bool) (fs : List Frame) (k : Key)
    → (written k (flush (handle_all label [] fs).0).1
        ≡ (if leaves_open false (frames_of k fs) then 10 ∷ [] else []))
      × (is_open k (flush (handle_all label [] fs).0).0 ≡ false)
flush_ends_lines label fs k = (
  flush-written k (handle_all label [] fs).0 (handle_all-IsMap label fs [] tt)
      ∙ newline_if_lem (is_open k (handle_all label [] fs).0)
      ∙ ap (λ b. if b then 10 ∷ [] else []) (is_open-handle_all label k fs [] ∙ start),
  flush_closes k (handle_all label [] fs).0,
)
  where
    start : leaves_open (is_open k []) (frames_of k fs) ≡ leaves_open false (frames_of k fs)
    start = unfold is_open in refl
