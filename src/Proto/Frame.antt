-- ===== src/Proto/Frame.antt =====
-- internal/proto/frame.go: FrameWriter.Write, FrameReader.Read, EncodeInt32 and DecodeInt32. A
-- stream is the bytes that are still to be read; the lock around a write makes it one step.
pub mod RoundTrip
pub mod Int32
use slurm_shim.Common.{
  ℕ, zero, suc, ◌+◌, ◌-◌, ◌*◌, ◌/◌, ◌%◌, ◌^◌, ◌≤◌, ◌<◌, Bool, true, false, List, [], ◌∷◌, ◌++◌, ◌≡◌,
  refl, ◌==◌, ltb, leb, if◌then◌else◌, Result, ok, err, length, take, drop,
}
use slurm_shim.Common.Int.{ℤ, pos, negsuc}
use slurm_shim.Text.Bytes.{Bytes}

-- The frame types, iota + 1.
abbrev pub frame_hello : ℕ
frame_hello = 1

abbrev pub frame_out : ℕ
frame_out = 4

-- The flag bits, FlagStderr and FlagEOL.
abbrev pub flag_stderr : ℕ
flag_stderr = 1

abbrev pub flag_eol : ℕ
flag_eol = 2

abbrev pub max_payload : ℕ
max_payload = 2 ^ 20

abbrev pub header_len : ℕ
header_len = 10

pub record Frame : Type 0 where
  pub type : ℕ  -- FrameType, a uint8
  pub rank : ℕ  -- uint32
  pub flags : ℕ  -- uint8
  pub payload : Bytes

-- `eof` is io.EOF, `unexpected_eof` is io.ErrUnexpectedEOF.
pub data FrameError : Type 0 where
  eof : FrameError
  unexpected_eof : FrameError
  payload_exceeds : ℕ → FrameError

-- binary.BigEndian.PutUint32
unfoldable pub put_uint32 : ℕ → Bytes
put_uint32 n = (n / 2 ^ 24) % 256 ∷ (n / 2 ^ 16) % 256 ∷ (n / 2 ^ 8) % 256 ∷ n % 256 ∷ []

-- binary.BigEndian.Uint32, of four bytes.
unfoldable pub get_uint32 : Bytes → ℕ
get_uint32 (a ∷ b ∷ c ∷ d ∷ s) = a * 2 ^ 24 + b * 2 ^ 16 + c * 2 ^ 8 + d
get_uint32 _ = 0

-- The bytes that Write passes to the stream, in one call.
unfoldable pub write : Frame → Result FrameError Bytes
unfolding put_uint32
write f =
    if ltb max_payload (length f.payload)
    then err (payload_exceeds (length f.payload))
    else ok (
        f.type % 256
        ∷ f.flags % 256
        ∷ (put_uint32 f.rank ++ (put_uint32 (length f.payload) ++ f.payload)))

-- io.ReadFull of `n` bytes: io.EOF if there is none at all, another error if there are too few.
unfoldable pub read_full : ℕ → Bytes → Result FrameError (Bytes × Bytes)
read_full n s =
    if leb n (length s)
    then ok (take n s, drop n s)
    else if length s == 0
    then err eof
    else err unexpected_eof

-- header[0], header[1], header[2:6] and header[6:10] are read from the front of the header.
frame_of : Bytes → Bytes → Frame
unfolding get_uint32
frame_of (t ∷ fl ∷ header) payload = record {
  type = t;
  flags = fl;
  rank = get_uint32 header;
  payload = payload;
}
frame_of _ payload = record { type = 0; flags = 0; rank = 0; payload = payload }

payload_len : Bytes → ℕ
unfolding get_uint32
payload_len header = get_uint32 (drop 6 header)

read_payload : Bytes → Result FrameError (Bytes × Bytes) → Result FrameError (Frame × Bytes)
unfolding frame_of
read_payload header (err e) = err e
read_payload header (ok (payload, rest)) = ok (frame_of header payload, rest)

read_body : Result FrameError (Bytes × Bytes) → Result FrameError (Frame × Bytes)
unfolding payload_len read_payload read_full
read_body (err e) = err e
read_body (ok (header, s)) =
    if ltb max_payload (payload_len header)
    then err (payload_exceeds (payload_len header))
    else read_payload header (read_full (payload_len header) s)

-- FrameReader.Read: the next frame and the rest of the stream.
unfoldable pub read : Bytes → Result FrameError (Frame × Bytes)
unfolding read_body
read s = read_body (read_full header_len s)

-- uint32(v) of an int32.
unfoldable pub to_uint32 : ℤ → ℕ
to_uint32 (pos n) = n % 2 ^ 32
to_uint32 (negsuc n) = 2 ^ 32 - 1 - n % 2 ^ 32

-- int32(u) of a uint32.
unfoldable pub to_int32 : ℕ → ℤ
to_int32 u = if ltb u (2 ^ 31) then pos u else negsuc (2 ^ 32 - 1 - u)

unfoldable pub encode_int32 : ℤ → Bytes
unfolding put_uint32
encode_int32 v = put_uint32 (to_uint32 v)

unfoldable pub decode_int32 : Bytes → ℤ
decode_int32 b = if ltb (length b) 4 then pos 0 else to_int32 (get_uint32 b)
