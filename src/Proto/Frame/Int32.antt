-- ===== src/Proto/Frame/Int32.antt =====
-- The payloads of exit codes and signal numbers (internal/proto/frame.go).
use slurm_shim.Common.{ℕ, ◌^◌, ◌<◌, false, ◌++◌, ◌≡◌, ap, ◌∙◌, arith, ltb, length}
use slurm_shim.Common.Int.{ℤ, pos, negsuc}
use slurm_shim.Text.Bytes.{Bytes}
use slurm_shim.Proto.Frame.{put_uint32, get_uint32, to_uint32, to_int32, encode_int32, decode_int32}

-- The range of an int32.
abbrev pub InInt32 : ℤ → Type 0
InInt32 (pos n) = n < 2 ^ 31
InInt32 (negsuc n) = n < 2 ^ 31

pub get-put_uint32 : (n : ℕ) (s : Bytes) → n < 2 ^ 32 → get_uint32 (put_uint32 n ++ s) ≡ n
unfolding put_uint32 get_uint32
get-put_uint32 n s h = omega arith

to_int32-to_uint32 : (v : ℤ) → InInt32 v → to_int32 (to_uint32 v) ≡ v
unfolding to_int32 to_uint32
to_int32-to_uint32 (pos n) h = ground arith
to_int32-to_uint32 (negsuc n) h = ground arith

to_uint32-lt : (v : ℤ) → to_uint32 v < 2 ^ 32
unfolding to_uint32
to_uint32-lt (pos n) = omega arith
to_uint32-lt (negsuc n) = omega arith

decode_int32-long :
    (b : Bytes) → ltb (length b) 4 ≡ false → decode_int32 b ≡ to_int32 (get_uint32 b)
unfolding decode_int32
decode_int32-long b h = rw h

four_bytes : (v : ℤ) (s : Bytes) → ltb (length (encode_int32 v ++ s)) 4 ≡ false
unfolding encode_int32
four_bytes v s = ground arith

get-encode_int32 : (v : ℤ) (s : Bytes) → get_uint32 (encode_int32 v ++ s) ≡ to_uint32 v
unfolding encode_int32
get-encode_int32 v s = get-put_uint32 (to_uint32 v) s (to_uint32-lt v)

-- Every int32, negative ones included, is read back from its payload, whatever bytes follow it.
pub decode-encode_int32 : (v : ℤ) (s : Bytes) → InInt32 v → decode_int32 (encode_int32 v ++ s) ≡ v
decode-encode_int32 v s h =
    decode_int32-long (encode_int32 v ++ s) (four_bytes v s)
    ∙ ap to_int32 (get-encode_int32 v s)
    ∙ to_int32-to_uint32 v h
