-- ===== src/Proto/Tests.antt =====
-- Runs of internal/proto/frame.go, and the theorems applied to a frame of rank output.
use slurm_shim.Common.{
  ℕ, ◌≤◌, ◌<◌, ◌⊎◌, ◌==◌, if◌then◌else◌, [], ◌∷◌, ◌++◌, ◌≡◌, refl, arith, ok, err, length,
}
use slurm_shim.Text.Bytes.{Bytes, codes}
use slurm_shim.Proto.Frame.{
  Frame, eof, unexpected_eof, frame_out, flag_eol, max_payload, write, read, payload_exceeds,
}
use slurm_shim.Proto.Frame.RoundTrip.{
  IsFrame, header_bytes, announced, read-write, write_all, read_all, read_all-write_all, read_cut,
  read_bounded,
}

abbrev line : Frame
line = record { type = frame_out; rank = 258; flags = flag_eol; payload = codes "hi" }

line_bytes : write line ≡ ok (4 ∷ 2 ∷ 0 ∷ 0 ∷ 1 ∷ 2 ∷ 0 ∷ 0 ∷ 0 ∷ 2 ∷ codes "hi")
unfolding write
line_bytes = refl

garbage : read (4 ∷ 2 ∷ 0 ∷ 0 ∷ 1 ∷ 2 ∷ 255 ∷ []) ≡ err unexpected_eof
unfolding read
garbage = refl

line-IsFrame : IsFrame line
line-IsFrame = omega arith

read-write_example : (b : Bytes) × (write line ≡ ok b) × (read (b ++ (7 ∷ [])) ≡ ok (line, 7 ∷ []))
read-write_example = read-write line (7 ∷ []) line-IsFrame (omega arith)

read_all-write_all_example :
    (b : Bytes) × (write_all (line ∷ line ∷ []) ≡ ok b)
    × (read_all 2 b ≡ ok (line ∷ line ∷ [], []))
    × (read [] ≡ err eof)
read_all-write_all_example =
    read_all-write_all (line ∷ line ∷ [])
      ((line-IsFrame, omega arith), ((line-IsFrame, omega arith), tt))

read_cut_example : read (4 ∷ 2 ∷ 0 ∷ 0 ∷ 1 ∷ 2 ∷ 0 ∷ 0 ∷ 0 ∷ 2 ∷ codes "h") ≡ err unexpected_eof
read_cut_example =
    read_cut line (4 ∷ 2 ∷ 0 ∷ 0 ∷ 1 ∷ 2 ∷ 0 ∷ 0 ∷ 0 ∷ 2 ∷ codes "hi") 11 line_bytes (omega arith)
      (omega arith)

read_bounded_example :
    ((max_payload < announced (1, 0, 0, 0))
      × (read (header_bytes 4 2 (0, 0, 1, 2) (1, 0, 0, 0) ++ [])
          ≡ err (payload_exceeds (announced (1, 0, 0, 0)))))
    ⊎ ((announced (1, 0, 0, 0) ≤ max_payload)
        × (((length {A = ℕ} [] < announced (1, 0, 0, 0))
              × (read (header_bytes 4 2 (0, 0, 1, 2) (1, 0, 0, 0) ++ [])
                  ≡ err (if length {A = ℕ} [] == 0 then eof else unexpected_eof)))
            ⊎ ((f : Frame) × (rest : Bytes) × (read
                    (header_bytes 4 2 (0, 0, 1, 2) (1, 0, 0, 0) ++ [])
                  ≡ ok (f, rest))
                × (f.payload ++ rest ≡ [])
                × (length f.payload ≡ announced (1, 0, 0, 0)))))
read_bounded_example = read_bounded 4 2 (0, 0, 1, 2) (1, 0, 0, 0) []
