-- ===== src/Transport/Frame/Codec.antt =====
-- What `WriteFrame` writes, and `ReadFrame` on it.
use grsync.Base.{ℕ, zero, suc, ◌/◌, ◌%◌, ◌^◌, ◌≤◌, ◌<◌, ◌≡◌, refl, ◌∙◌, arith, inl, inr}
use grsync.Base.{[], ◌∷◌, ◌++◌, Bytes, IsByte, length, take, drop, ltb, if◌then◌else◌, append_assoc}
use grsync.Base.{
  Result, ok, err, Bool-cases, take-append_exact, drop-append_exact, length-append, ltb-false,
}
use grsync.Conn.{Conn, pure, ◌>>=◌, ◌>>◌, write, read_full}
use grsync.Transport.Frame.{
  Frame, FrameError, payload_too_large, header_eof, payload_eof, max_frame_payload, put_uint32,
  uint32, write_frame, read_frame,
}

-- A length, a type, and the payload.
abbrev pub encode : Frame → Bytes
encode f = put_uint32 (length f.payload) ++ (f.frame_type ∷ f.payload)

-- A frame that Go can hold and that `WriteFrame` accepts.
pub record IsFrame (f : Frame) : Type 0 where
  pub type_byte : IsByte f.frame_type
  pub small : length f.payload ≤ max_frame_payload

write_parts :
    (size : Bytes) (frame_type : ℕ) (payload : Bytes) (c : Conn)
    → (write {E = FrameError} (size ++ (frame_type ∷ []))
          >> (if ltb 0 (length payload) then write payload else pure tt))
        c
      ≡ (ok tt, record c { output = c.output ++ (size ++ (frame_type ∷ payload)) })
unfolding write
write_parts size frame_type [] c = refl
write_parts size frame_type (x ∷ payload) c = ground (
  arith,
  append_assoc c.output (size ++ (frame_type ∷ [])) (x ∷ payload),
  append_assoc size (frame_type ∷ []) (x ∷ payload),
)

-- A frame of allowed size is written as its length, its type and its payload.
pub write_frame-encode :
    (f : Frame) (c : Conn)
    → IsFrame f
    → write_frame f c ≡ (ok tt, record c { output = c.output ++ encode f })
unfolding write_frame
write_frame-encode f c h =
    rw (ltb-false max_frame_payload (length f.payload) h.small, no_wrap, type_whole)
      (write_parts (put_uint32 (length f.payload)) f.frame_type f.payload c)
  where
    no_wrap : length f.payload % 2 ^ 32 ≡ length f.payload
    no_wrap = omega arith

    type_whole : f.frame_type % 256 ≡ f.frame_type
    type_whole = omega arith

-- A frame that is too large is refused, and nothing is written.
pub write_frame_large :
    (f : Frame) (c : Conn)
    → max_frame_payload < length f.payload
    → write_frame f c ≡ (err (payload_too_large (length f.payload)), c)
unfolding write_frame
write_frame_large f c h = ground arith

-- The outcome once a header has been read.
abbrev pub after_header : ℕ → ℕ → Bytes → Bytes → Result FrameError Frame × Conn
after_header size frame_type body out =
    if ltb max_frame_payload size
    then (err (payload_too_large size), record { input = body; output = out })
    else if ltb (length body) size
    then (err payload_eof, record { input = []; output = out })
    else (
      ok (record { frame_type = frame_type; payload = take size body }),
      record { input = drop size body; output = out },
    )

-- Reading a payload of `size` bytes, none of them if `size` is 0.
read_sized :
    (size frame_type : ℕ) (body out : Bytes)
    → ◌>>=◌ {B = Frame}
        (if ltb 0 size then read_full size payload_eof else pure [])
        (λ payload. pure (record { frame_type = frame_type; payload = payload }))
        (record { input = body; output = out })
      ≡ (if ltb (length body) size
          then (err payload_eof, record { input = []; output = out })
          else (
            ok (record { frame_type = frame_type; payload = take size body }),
            record { input = drop size body; output = out },
          ))
unfolding read_full
read_sized zero frame_type body out = ground arith
read_sized (suc n) frame_type body out = ground arith

-- With five bytes at hand `ReadFrame` reads the size, refuses one that is too large before it reads
-- on, and otherwise takes just that many bytes.
pub read_frame-after_header :
    (b0 b1 b2 b3 frame_type : ℕ) (body out : Bytes)
    → read_frame (record { input = b0 ∷ b1 ∷ b2 ∷ b3 ∷ frame_type ∷ body; output = out })
      ≡ after_header (uint32 b0 b1 b2 b3) frame_type body out
unfolding read_frame
read_frame-after_header b0 b1 b2 b3 frame_type body out =
    rw (ltb-false (suc (suc (suc (suc (suc (length body)))))) 5 (omega arith))
      (elim (Bool-cases (ltb max_frame_payload (uint32 b0 b1 b2 b3))) [
        | inl large ↦ rw large
        | inr small ↦ rw small (read_sized (uint32 b0 b1 b2 b3) frame_type body out)
      ])

pub read_frame_short :
    (s out : Bytes)
    → length s < 5
    → read_frame (record { input = s; output = out })
      ≡ (err header_eof, record { input = []; output = out })
unfolding read_frame
read_frame_short s out h = ground arith

pub uint32-put_uint32 :
    (n : ℕ)
    → n < 2 ^ 32
    → uint32 (n / 2 ^ 24 % 256) (n / 2 ^ 16 % 256) (n / 2 ^ 8 % 256) (n % 256) ≡ n
unfolding uint32
uint32-put_uint32 n h = omega arith

pub read_frame-encode :
    (f : Frame) (rest out : Bytes)
    → IsFrame f
    → read_frame (record { input = encode f ++ rest; output = out })
      ≡ (ok f, record { input = rest; output = out })
unfolding put_uint32
read_frame-encode f rest out h =
    read_frame-after_header _ _ _ _ f.frame_type (f.payload ++ rest) out
    ∙ (rw (uint32-put_uint32 (length f.payload) (omega arith)) (
        ground (
          arith,
          length-append f.payload rest,
          take-append_exact f.payload rest,
          drop-append_exact f.payload rest,
        )))

-- `ReadFrame` gives back the frame that `WriteFrame` wrote, and leaves what follows it, for every
-- frame whose type is a byte and whose payload is at most 64 MB.
pub read_frame-write_frame :
    (f : Frame) (c : Conn) (rest out : Bytes)
    → IsFrame f
    → (w : Bytes) × (write_frame f c ≡ (ok tt, record c { output = c.output ++ w }))
      × (read_frame (record { input = w ++ rest; output = out })
          ≡ (ok f, record { input = rest; output = out }))
read_frame-write_frame f c rest out h =
    (encode f, write_frame-encode f c h, read_frame-encode f rest out h)
