-- ===== src/Mux/Demux.antt =====
-- internal/mux/demux.go. The mutex makes each call one step on the map `midline`, which is a list of
-- its entries; a writer takes all that is written to it. A write keeps the rank that it came from.
pub mod Streams
pub mod Lines
pub mod Flush
use slurm_shim.Common.{
  ℕ, ◌/◌, ◌%◌, Bool, true, false, ◌&&◌, not, List, [], ◌∷◌, ◌++◌, ◌==◌, if◌then◌else◌,
}
use slurm_shim.Text.Bytes.{Bytes}
use slurm_shim.Text.Decimal.{itoa_ℕ}
use slurm_shim.Proto.Frame.{Frame, frame_out}

pub record Key : Type 0 where
  pub rank : ℕ
  pub stderr : Bool

abbrev pub bool_eq : Bool → Bool → Bool
bool_eq true b = b
bool_eq false b = not b

abbrev pub key_eq : Key → Key → Bool
key_eq k k' = k.rank == k'.rank && bool_eq k.stderr k'.stderr

-- The map from a key to whether its line is open.
abbrev pub Midline : Type 0
Midline = List (Key × Bool)

-- A missing key reads as false.
unfoldable pub is_open : Key → Midline → Bool
is_open k [] = false
is_open k ((k', open_) ∷ m) = let rest = is_open k m in if key_eq k' k then open_ else rest

unfoldable pub set_open : Key → Bool → Midline → Midline
set_open k b [] = (k, b) ∷ []
set_open k b ((k', open_) ∷ m) =
    let rest = set_open k b m in if key_eq k' k then (k', b) ∷ m else (k', open_) ∷ rest

-- One Write: to srun's stderr or stdout as the key says.
pub record Write : Type 0 where
  pub key : Key
  pub bytes : Bytes

-- FlagStderr and FlagEOL.
abbrev pub has_stderr : ℕ → Bool
has_stderr flags = flags % 2 == 1

abbrev pub has_eol : ℕ → Bool
has_eol flags = flags / 2 % 2 == 1

unfoldable pub key_of : Frame → Key
key_of f = record { rank = f.rank; stderr = has_stderr f.flags }

-- The label in front of a line: the rank, a colon and a blank.
abbrev pub label_of : ℕ → Bytes
label_of rank = itoa_ℕ rank ++ (b':' ∷ b' ' ∷ [])

unfoldable pub line_of : Bool → Bool → Frame → Bytes
line_of label open_ f =
    (if label && not open_ then label_of f.rank else [])
    ++ (f.payload ++ (if has_eol f.flags then 10 ∷ [] else []))

-- Demux.Handle: the new map, and the one write of the frame, if it is output.
unfoldable pub handle : Bool → Midline → Frame → Midline × List Write
unfolding is_open set_open line_of key_of
handle label m f =
    if f.type == frame_out
    then (
      set_open (key_of f) (not (has_eol f.flags)) m,
      record { key = key_of f; bytes = line_of label (is_open (key_of f) m) f } ∷ [],
    )
    else (m, [])

-- The calls of Handle for the frames in the order that they arrive.
unfoldable pub handle_all : Bool → Midline → List Frame → Midline × List Write
unfolding handle
handle_all label m [] = (m, [])
handle_all label m (f ∷ fs) =
    let (m', now) = handle label m f in
    let (end, later) = handle_all label m' fs in (end, now ++ later)

-- Demux.Flush: a newline for each open line. Go leaves the order of the entries open.
unfoldable pub flush : Midline → Midline × List Write
flush [] = ([], [])
flush ((k, open_) ∷ m) =
    let (m', writes) = flush m in
    ((k, false) ∷ m', if open_ then record { key = k; bytes = 10 ∷ [] } ∷ writes else writes)
