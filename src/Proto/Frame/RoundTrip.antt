-- ===== src/Proto/Frame/RoundTrip.antt =====
-- Writing frames to a stream and reading them from it (internal/proto/frame.go).
use slurm_shim.Common.{
  ℕ, zero, suc, ◌%◌, ◌^◌, ◌≤◌, ◌<◌, Bool, true, false, List, [], ◌∷◌, ◌++◌, append_assoc, ◌≡◌, refl,
  sym, ap, ◌∙◌, arith, ◌==◌, leb, ltb-eq_false, if◌then◌else◌, Bool-cases, inl, inr, Result, ok,
  err, ◌>>=◌, ok-injective, length, length-append, take, drop, All, ◌+◌, ◌*◌, ◌-◌, ◌⊎◌, ltb-eq_true,
}
use native.Mathlib.Decide.{dec_lt}
use slurm_shim.Text.Bytes.{Bytes, take-append_length, drop-append_length}
use slurm_shim.Proto.Frame.{
  Frame, FrameError, eof, unexpected_eof, payload_exceeds, max_payload, header_len, put_uint32,
  get_uint32, write, read_full, frame_of, payload_len, read_payload, read_body, read,
}
use slurm_shim.Proto.Frame.Int32.{get-put_uint32}

-- The fields fit their Go types.
pub record IsFrame (f : Frame) : Type 0 where
  pub type_fits : f.type < 256
  pub flags_fit : f.flags < 256
  pub rank_fits : f.rank < 2 ^ 32

-- The ten bytes in front of a payload.
pub header_of : Frame → Bytes
header_of f = f.type % 256 ∷ f.flags % 256 ∷ (put_uint32 f.rank ++ put_uint32 (length f.payload))

length-header_of : (f : Frame) → length (header_of f) ≡ 10
unfolding header_of put_uint32
length-header_of f = refl

read_full_front : (a b : Bytes) (n : ℕ) → length a ≡ n → read_full n (a ++ b) ≡ ok (a, b)
unfolding read_full
read_full_front a b n e =
    let long : leb (length a) (length (a ++ b)) ≡ true = ground (arith, length-append a b) in
    rw (← e) (rw (long, take-append_length a b, drop-append_length a b))

write-header :
    (f : Frame) → length f.payload ≤ max_payload → write f ≡ ok (header_of f ++ f.payload)
unfolding write header_of put_uint32
write-header f h = ground arith

frame_of-header : (f : Frame) → IsFrame f → frame_of (header_of f) f.payload ≡ f
unfolding frame_of header_of
frame_of-header f v =
    let r = get-put_uint32 f.rank (put_uint32 (length f.payload)) v.rank_fits in
    let t : f.type % 256 ≡ f.type = omega arith in
    let g : f.flags % 256 ≡ f.flags = omega arith in
    λ i. record { type = t i; flags = g i; rank = r i; payload = f.payload }

payload_len-header :
    (f : Frame) → length f.payload ≤ max_payload → payload_len (header_of f) ≡ length f.payload
unfolding payload_len header_of put_uint32 get_uint32
payload_len-header f h = omega arith

read_body-fits :
    (header s : Bytes)
    → payload_len header ≤ max_payload
    → read_body (ok (header, s)) ≡ read_payload header (read_full (payload_len header) s)
unfolding read_body
read_body-fits header s h = let e = ltb-eq_false max_payload (payload_len header) h in rw e

read_front :
    (header s : Bytes)
    → length header ≡ 10
    → payload_len header ≤ max_payload
    → read (header ++ s) ≡ read_payload header (read_full (payload_len header) s)
unfolding read
read_front header s l h = ap read_body (read_full_front header s 10 l) ∙ read_body-fits header s h

read_payload-ok : (header p s : Bytes) → read_payload header (ok (p, s)) ≡ ok (frame_of header p, s)
unfolding read_payload
read_payload-ok header p s = refl

-- Every frame whose payload is within the bound is written, and read back from the front of any
-- stream that begins with it, with the rest of the stream left as it was.
pub read-write :
    (f : Frame) (rest : Bytes)
    → IsFrame f
    → length f.payload ≤ max_payload
    → (b : Bytes) × (write f ≡ ok b) × (read (b ++ rest) ≡ ok (f, rest))
read-write f rest v h =
    let n = payload_len-header f h in
    (
      header_of f ++ f.payload,
      write-header f h,
      ap read (append_assoc (header_of f) f.payload rest)
          ∙ read_front (header_of f) (f.payload ++ rest) (length-header_of f) (omega (arith, n))
          ∙ ap (read_payload (header_of f))
              (read_full_front f.payload rest (payload_len (header_of f)) (sym n))
          ∙ read_payload-ok (header_of f) f.payload rest
          ∙ ap (λ (z : Frame). ok (z, rest)) (frame_of-header f v),
    )

-- A frame that is too long is refused, and nothing is written.
pub write_rejects :
    (f : Frame)
    → max_payload < length f.payload
    → write f ≡ err (payload_exceeds (length f.payload))
unfolding write
write_rejects f h = ground arith

read_full_short :
    (n : ℕ) (s : Bytes)
    → length s < n
    → read_full n s ≡ (if length s == 0 then err eof else err unexpected_eof)
unfolding read_full
read_full_short n s h = let e : leb n (length s) ≡ false = ground arith in rw e

read_payload_cut :
    (header : Bytes) (b : Bool)
    → read_payload header (if b then err eof else err unexpected_eof)
      ≡ err (if b then eof else unexpected_eof)
unfolding read_payload
read_payload_cut header true = refl
read_payload_cut header false = refl

-- Writing frames one after the other, each in one call under the lock.
abbrev pub write_all : List Frame → Result FrameError Bytes
write_all [] = ok []
write_all (f ∷ fs) = do b ← write f; bs ← write_all fs; ok (b ++ bs)

-- Reading a given number of frames.
abbrev pub read_all : ℕ → Bytes → Result FrameError (List Frame × Bytes)
read_all zero s = ok ([], s)
read_all (suc n) s = do (f, rest) ← read s; (fs, end) ← read_all n rest; ok (f ∷ fs, end)

abbrev pub AllFrames : List Frame → Type 0
AllFrames = All (λ (f : Frame). IsFrame f × (length f.payload ≤ max_payload))

read_end : read [] ≡ err eof
unfolding read read_body read_full
read_end = refl

-- A whole conversation: frames written one after the other are read back in their order, each with
-- its type, rank, flags and payload; no byte is left behind them, and a read there meets io.EOF.
pub read_all-write_all :
    (fs : List Frame)
    → AllFrames fs
    → (b : Bytes) × (write_all fs ≡ ok b)
      × (read_all (length fs) b ≡ ok (fs, []))
      × (read [] ≡ err eof)
read_all-write_all [] a = ([], refl, refl, read_end)
read_all-write_all (f ∷ fs) ((v, h), a) =
    let (bs, w, r, end) = read_all-write_all fs a in
    let (b, w', r') = read-write f bs v h in (b ++ bs, rw (w', w), rw (r', r), end)

length-take_le : (n : ℕ) (s : Bytes) → n ≤ length s → length (take n s) ≡ n
length-take_le zero s h = refl
length-take_le (suc n) [] h = absurd (omega arith)
length-take_le (suc n) (c ∷ s) h = ap suc (length-take_le n s (omega arith))

-- A stream that ends inside the payload of a frame.
read_payload_short :
    (f : Frame) (cut : Bytes)
    → length f.payload ≤ max_payload
    → length cut < length f.payload
    → read (header_of f ++ cut) ≡ err (if length cut == 0 then eof else unexpected_eof)
read_payload_short f cut h short =
    let n = payload_len-header f h in
    read_front (header_of f) cut (length-header_of f) (omega (arith, n))
    ∙ ap (read_payload (header_of f))
        (read_full_short (payload_len (header_of f)) cut (omega (arith, n)))
    ∙ read_payload_cut (header_of f) (length cut == 0)

-- A stream that ends inside a header.
read_header_short :
    (s : Bytes)
    → length s < header_len
    → read s ≡ err (if length s == 0 then eof else unexpected_eof)
unfolding read read_body
read_header_short s h = rw (read_full_short header_len s h) (elim (Bool-cases (length s == 0)) [
  | inl nothing ↦ rw nothing refl
  | inr some_bytes ↦ rw some_bytes refl
])

take-append_later :
    (n : ℕ) (a s : Bytes) → length a ≤ n → take n (a ++ s) ≡ a ++ take (n - length a) s
take-append_later n [] s h = let e : n - 0 ≡ n = omega arith in rw e refl
take-append_later zero (c ∷ a) s h = absurd (omega arith)
take-append_later (suc n) (c ∷ a) s h =
    let e : suc n - suc (length a) ≡ n - length a = omega arith in
    rw e (ap (λ (r : Bytes). c ∷ r) (take-append_later n a s (omega arith)))

-- How a read ends that meets the first `n` bytes of a frame and nothing behind them.
abbrev pub cut_error : ℕ → FrameError
cut_error n = if n == 0 then eof else if n == header_len then eof else unexpected_eof

cut_error-payload :
    (n : ℕ) → header_len ≤ n → (if n - header_len == 0 then eof else unexpected_eof) ≡ cut_error n
cut_error-payload n h = ground arith

-- A written frame that is cut anywhere before its end is never read as a frame. A cut before the
-- first byte is a clean end, io.EOF; a cut inside the header or inside the payload is io.ErrUnexpectedEOF;
-- but a cut right behind the ten bytes of the header is answered by io.EOF too.
pub read_cut :
    (f : Frame) (b : Bytes) (n : ℕ)
    → write f ≡ ok b
    → length f.payload ≤ max_payload
    → n < length b
    → read (take n b) ≡ err (cut_error n)
read_cut f b n w h short =
    let e : header_of f ++ f.payload ≡ b = ok-injective (sym (write-header f h) ∙ w) in
    let ten = length-header_of f in
    let sizes : length b ≡ header_len + length f.payload =
      omega (arith, ap length e, length-append (header_of f) f.payload, ten) in
    elim (dec_lt n header_len) [
      | yes inside ↦
          let size = length-take_le n b (omega arith) in
          read_header_short (take n b) (omega (arith, size)) ∙ rw size (ground arith)
      | no behind ↦
          let part : take n b ≡ header_of f ++ take (n - header_len) f.payload =
            ap (take n) (sym e)
            ∙ take-append_later n (header_of f) f.payload (omega (arith, ten))
            ∙ ap (λ k. header_of f ++ take (n - k) f.payload) ten in
          let size = length-take_le (n - header_len) f.payload (omega arith) in
          ap read part
          ∙ read_payload_short f (take (n - header_len) f.payload) h (omega (arith, size))
          ∙ rw size (ap err (cut_error-payload n (omega arith)))
    ]

payload-frame_of : (header p : Bytes) → (frame_of header p).payload ≡ p
unfolding frame_of
payload-frame_of [] p = refl
payload-frame_of (a ∷ []) p = refl
payload-frame_of (a ∷ b ∷ header) p = refl

read_full_long : (n : ℕ) (s : Bytes) → n ≤ length s → read_full n s ≡ ok (take n s, drop n s)
unfolding read_full
read_full_long n s h = let e : leb n (length s) ≡ true = ground arith in rw e refl

take-drop : (n : ℕ) (s : Bytes) → take n s ++ drop n s ≡ s
take-drop zero s = refl
take-drop (suc n) [] = refl
take-drop (suc n) (c ∷ s) = ap (λ (r : Bytes). c ∷ r) (take-drop n s)

-- The ten bytes of a header: type, flags, rank and length.
abbrev pub header_bytes : ℕ → ℕ → (ℕ × ℕ × ℕ × ℕ) → (ℕ × ℕ × ℕ × ℕ) → Bytes
header_bytes t fl (r0, r1, r2, r3) (l0, l1, l2, l3) =
    t ∷ fl ∷ r0 ∷ r1 ∷ r2 ∷ r3 ∷ l0 ∷ l1 ∷ l2 ∷ l3 ∷ []

-- The length that four bytes announce, the most significant first.
abbrev pub announced : (ℕ × ℕ × ℕ × ℕ) → ℕ
announced (l0, l1, l2, l3) = l0 * 2 ^ 24 + l1 * 2 ^ 16 + l2 * 2 ^ 8 + l3

payload_len-announced :
    (t fl : ℕ) (r l : ℕ × ℕ × ℕ × ℕ) → payload_len (header_bytes t fl r l) ≡ announced l
unfolding payload_len get_uint32
payload_len-announced t fl r l = refl

read_header_front :
    (header s : Bytes) → length header ≡ 10 → read (header ++ s) ≡ read_body (ok (header, s))
unfolding read
read_header_front header s l = ap read_body (read_full_front header s 10 l)

read_body-over :
    (header s : Bytes)
    → max_payload < payload_len header
    → read_body (ok (header, s)) ≡ err (payload_exceeds (payload_len header))
unfolding read_body
read_body-over header s h = rw (ltb-eq_true max_payload (payload_len header) h) refl

-- What a read makes of a whole header, whatever the bytes: a length beyond the bound is refused and
-- named; within the bound the payload is just as many bytes of the stream as announced, with the rest
-- of the stream left behind them, or an error if the stream holds fewer.
pub read_bounded :
    (t fl : ℕ) (r l : ℕ × ℕ × ℕ × ℕ) (s : Bytes)
    → ((max_payload < announced l)
        × (read (header_bytes t fl r l ++ s) ≡ err (payload_exceeds (announced l))))
      ⊎ ((announced l ≤ max_payload)
          × (((length s < announced l)
                × (read (header_bytes t fl r l ++ s)
                    ≡ err (if length s == 0 then eof else unexpected_eof)))
              ⊎ ((f : Frame) × (rest : Bytes) × (read (header_bytes t fl r l ++ s) ≡ ok (f, rest))
                  × (f.payload ++ rest ≡ s)
                  × (length f.payload ≡ announced l))))
read_bounded t fl r l s =
    let header : Bytes = header_bytes t fl r l in
    let n : payload_len header ≡ announced l = payload_len-announced t fl r l in
    elim (dec_lt max_payload (announced l)) [
      | yes over ↦ inl (
        over,
        read_header_front header s refl
            ∙ read_body-over header s (omega (arith, n))
            ∙ ap (λ k. err (payload_exceeds k)) n,
      )
      | no within ↦
          let start : read (header ++ s) ≡ read_payload header (read_full (announced l) s) =
            read_front header s refl (omega (arith, n))
            ∙ ap (λ k. read_payload header (read_full k s)) n in
          inr (
            omega arith,
            elim (dec_lt (length s) (announced l)) [
              | yes short ↦ inl (
                short,
                start
                    ∙ ap (read_payload header) (read_full_short (announced l) s short)
                    ∙ read_payload_cut header (length s == 0),
              )
              | no long ↦ inr (
                frame_of header (take (announced l) s),
                drop (announced l) s,
                start
                    ∙ ap (read_payload header) (read_full_long (announced l) s (omega arith))
                    ∙ read_payload-ok header (take (announced l) s) (drop (announced l) s),
                ap (λ (p : Bytes). p ++ drop (announced l) s) (payload-frame_of header _)
                    ∙ take-drop (announced l) s,
                ap length (payload-frame_of header (take (announced l) s))
                    ∙ length-take_le (announced l) s (omega arith),
              )
            ],
          )
    ]
