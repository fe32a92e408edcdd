-- ===== src/Mux/Demux/Streams.antt =====
-- What internal/mux/demux.go writes for one rank and stream, frame by frame.
use slurm_shim.Common.{
  Bool, true, false, ◌&&◌, not, List, [], ◌∷◌, ◌++◌, append_assoc, append-nil, ◌≡◌, refl, sym, ap,
  ◌∙◌, ◌==◌, ==→eq, ==_refl, and-true, if◌then◌else◌, Bool-cases, inl, inr,
}
use slurm_shim.Text.Bytes.{Bytes}
use slurm_shim.Proto.Frame.{Frame, frame_out}
use slurm_shim.Mux.Demux.{
  Key, bool_eq, key_eq, Midline, is_open, set_open, Write, has_eol, key_of, line_of, handle,
  handle_all,
}

-- All bytes that are written for a key, in their order.
abbrev pub written : Key → List Write → Bytes
written k [] = []
written k (w ∷ ws) = let rest = written k ws in if key_eq w.key k then w.bytes ++ rest else rest

-- Whether a frame is output of a key.
abbrev pub is_output_of : Key → Frame → Bool
is_output_of k f = f.type == frame_out && key_eq (key_of f) k

-- The output frames of a key, in the order that they arrive.
abbrev pub frames_of : Key → List Frame → List Frame
frames_of k [] = []
frames_of k (f ∷ fs) = let rest = frames_of k fs in if is_output_of k f then f ∷ rest else rest

-- What one key's frames are to give, if its line is open or not.
unfoldable pub text_of : Bool → Bool → List Frame → Bytes
text_of label open_ [] = []
text_of label open_ (f ∷ fs) = line_of label open_ f ++ text_of label (not (has_eol f.flags)) fs

bool_eq→eq : (a b : Bool) → bool_eq a b ≡ true → a ≡ b
bool_eq→eq true b h = sym h
bool_eq→eq false true h = cc
bool_eq→eq false false h = refl

pub key_eq→eq : (k k' : Key) → key_eq k k' ≡ true → k ≡ k'
key_eq→eq k k' h =
    let (p, q) = and-true (k.rank == k'.rank) (bool_eq k.stderr k'.stderr) h in
    λ i. record { rank = ==→eq k.rank k'.rank p i; stderr = bool_eq→eq k.stderr k'.stderr q i }

pub key_eq_refl : (k : Key) → key_eq k k ≡ true
key_eq_refl k = rw (==_refl k.rank) (bool_eq_refl k.stderr)
  where
    bool_eq_refl : (b : Bool) → bool_eq b b ≡ true
    bool_eq_refl true = refl
    bool_eq_refl false = refl

is_open-set_open : (k : Key) (b : Bool) (m : Midline) → is_open k (set_open k b m) ≡ b
unfolding is_open set_open
is_open-set_open k b [] = rw (key_eq_refl k) refl
is_open-set_open k b ((k', o) ∷ m) = elim (Bool-cases (key_eq k' k)) [
  | inl e ↦ rw (e, e) refl
  | inr e ↦ rw (e, e) (is_open-set_open k b m)
]

-- Another key's line is not touched.
is_open-set_open_other :
    (k k' : Key) (b : Bool) (m : Midline)
    → key_eq k' k ≡ false
    → is_open k (set_open k' b m) ≡ is_open k m
unfolding is_open set_open
is_open-set_open_other k k' b [] h = rw h refl
is_open-set_open_other k k' b ((q, o) ∷ m) h = elim (Bool-cases (key_eq q k')) [
  | inl e ↦
      let other : key_eq q k ≡ false = ap (λ (z : Key). key_eq z k) (key_eq→eq q k' e) ∙ h in
      rw (e, other) refl
  | inr e ↦
      rw e (ap (λ (x : Bool). if key_eq q k then o else x) (is_open-set_open_other k k' b m h))
]

written-append :
    (k : Key) (ws vs : List Write) → written k (ws ++ vs) ≡ written k ws ++ written k vs
written-append k [] vs = refl
written-append k (w ∷ ws) vs = elim (Bool-cases (key_eq w.key k)) [
  | inl e ↦
      rw (e, written-append k ws vs) (sym (append_assoc w.bytes (written k ws) (written k vs)))
  | inr e ↦ rw e (written-append k ws vs)
]

pub handle-other :
    (label : Bool) (k : Key) (m : Midline) (f : Frame)
    → is_output_of k f ≡ false
    → (is_open k (handle label m f).0 ≡ is_open k m) × (written k (handle label m f).1 ≡ [])
unfolding handle
handle-other label k m f h = elim (Bool-cases (f.type == frame_out)) [
  | inl e ↦
      let other : key_eq (key_of f) k ≡ false = rw e at h in
      rw (e, other) (is_open-set_open_other k (key_of f) (not (has_eol f.flags)) m other, refl)
  | inr e ↦ rw e (refl, refl)
]

pub handle-own :
    (label : Bool) (k : Key) (m : Midline) (f : Frame)
    → is_output_of k f ≡ true
    → (is_open k (handle label m f).0 ≡ not (has_eol f.flags))
      × (written k (handle label m f).1 ≡ line_of label (is_open k m) f)
unfolding handle
handle-own label k m f h =
    let (out, own) = and-true (f.type == frame_out) (key_eq (key_of f) k) h in
    let same : key_of f ≡ k = key_eq→eq (key_of f) k own in
    rw (out, own, same)
      (is_open-set_open k (not (has_eol f.flags)) m, append-nil (line_of label (is_open k m) f))

pub written-text_of :
    (label : Bool) (k : Key) (fs : List Frame) (m : Midline)
    → written k (handle_all label m fs).1 ≡ text_of label (is_open k m) (frames_of k fs)
unfolding handle_all text_of
written-text_of label k [] m = refl
written-text_of label k (f ∷ fs) m = elim (Bool-cases (is_output_of k f)) [
  | inl e ↦
      let (state, now) = handle-own label k m f e in
      let later = written-text_of label k fs (handle label m f).0 in
      rw
        (
          written-append k (handle label m f).1 (handle_all label (handle label m f).0 fs).1,
          now,
          later,
          state,
          e,
        )
        refl
  | inr e ↦
      let (state, now) = handle-other label k m f e in
      let later = written-text_of label k fs (handle label m f).0 in
      rw
        (
          written-append k (handle label m f).1 (handle_all label (handle label m f).0 fs).1,
          now,
          later,
          state,
          e,
        )
        refl
]
