-- ===== src/Transport/Frame/Bounds.antt =====
-- `ReadFrame` on any input, well formed or not.
use grsync.Base.{ℕ, suc, ◌≤◌, ◌<◌, ◌≡◌, refl, sym, ap, ◌∙◌, arith}
use grsync.Base.{[], ◌∷◌, ◌++◌, Bytes, IsByte, All, length, take, drop, ltb, if◌then◌else◌}
use grsync.Base.{
  Result, ok, err, panic, ◌≢◌, length-take, take-append-drop, length-append, ltb-false, lt→ltb,
}
use grsync.Conn.{Conn}
use grsync.Transport.Frame.{
  Frame, FrameError, header_eof, payload_eof, max_frame_payload, put_uint32, uint32, read_frame,
}
use grsync.Transport.Frame.Codec.{
  encode, IsFrame, after_header, read_frame-after_header, read_frame_short, uint32-put_uint32,
}

put_uint32-uint32 :
    (b0 b1 b2 b3 : ℕ)
    → IsByte b0
    → IsByte b1
    → IsByte b2
    → IsByte b3
    → put_uint32 (uint32 b0 b1 b2 b3) ≡ b0 ∷ b1 ∷ b2 ∷ b3 ∷ []
unfolding put_uint32 uint32
put_uint32-uint32 b0 b1 b2 b3 h0 h1 h2 h3 = ground arith

-- What a successful read says of the bytes.
record Parsed (s out : Bytes) (f : Frame) (c : Conn) : Type 0 where
  frame_ok : IsFrame f
  bytes_eq : s ≡ encode f ++ c.input
  output_eq : c.output ≡ out

after_header-ok :
    (size t : ℕ) (body out : Bytes) (f : Frame) (c : Conn)
    → after_header size t body out ≡ (ok f, c)
    → (size ≤ max_frame_payload)
      × (size ≤ length body)
      × (f ≡ record { frame_type = t; payload = take size body })
      × (c ≡ record { input = drop size body; output = out })
after_header-ok size t body out f c e = ground arith

after_header-Parsed :
    (b0 b1 b2 b3 t : ℕ) (body out : Bytes) (f : Frame) (c : Conn)
    → All IsByte (b0 ∷ b1 ∷ b2 ∷ b3 ∷ t ∷ body)
    → after_header (uint32 b0 b1 b2 b3) t body out ≡ (ok f, c)
    → Parsed (b0 ∷ b1 ∷ b2 ∷ b3 ∷ t ∷ body) out f c
after_header-Parsed b0 b1 b2 b3 t body out f c (h0, (h1, (h2, (h3, (ht, hb))))) e =
    let size = uint32 b0 b1 b2 b3 in
    let (small, enough, f_eq, c_eq) = after_header-ok size t body out f c e in
    let size_eq : length (take size body) ≡ size = omega (arith, length-take size body) in
    rw (f_eq, c_eq)
      (record {
        frame_ok = record { type_byte = ht; small = rw size_eq small };
        bytes_eq =
            rw (size_eq, put_uint32-uint32 b0 b1 b2 b3 h0 h1 h2 h3, take-append-drop size body);
        output_eq = refl;
      })

read_frame-Parsed :
    (s out : Bytes) (f : Frame) (c : Conn)
    → All IsByte s
    → read_frame (record { input = s; output = out }) ≡ (ok f, c)
    → Parsed s out f c
read_frame-Parsed (b0 ∷ b1 ∷ b2 ∷ b3 ∷ t ∷ body) out f c h e =
    after_header-Parsed b0 b1 b2 b3 t body out f c h
      (sym (read_frame-after_header b0 b1 b2 b3 t body out) ∙ e)
read_frame-Parsed s out f c h e = absurd (cc (sym (read_frame_short s out (omega arith)) ∙ e))

-- Whatever bytes `ReadFrame` reads a frame from, the frame has a type that is a byte and a payload
-- of at most 64 MB, and the bytes are those that `WriteFrame` writes for it, followed by the rest;
-- nothing is written.
pub read_frame_sound :
    (s out : Bytes) (f : Frame) (c : Conn)
    → All IsByte s
    → read_frame (record { input = s; output = out }) ≡ (ok f, c)
    → IsFrame f × (s ≡ encode f ++ c.input) × (c.output ≡ out)
read_frame_sound s out f c h e =
    let p = read_frame-Parsed s out f c h e in (p.frame_ok, p.bytes_eq, p.output_eq)

cut_header :
    (f : Frame) (b0 b1 b2 b3 t : ℕ) (body back : Bytes) (x : ℕ)
    → IsFrame f
    → encode f ≡ b0 ∷ b1 ∷ b2 ∷ b3 ∷ t ∷ body ++ (x ∷ back)
    → (uint32 b0 b1 b2 b3 ≡ length f.payload) × (f.payload ≡ body ++ (x ∷ back))
unfolding put_uint32
cut_header f b0 b1 b2 b3 t body back x h e =
    ground (arith, uint32-put_uint32 (length f.payload) (omega arith))

-- A frame cut short anywhere is an error, in its header or in its payload: no proper prefix of a
-- written frame is read as a frame, and none makes `ReadFrame` panic.
pub read_frame_cut :
    (f : Frame) (front back out : Bytes) (x : ℕ)
    → IsFrame f
    → encode f ≡ front ++ (x ∷ back)
    → (read_frame (record { input = front; output = out })).0
      ≡ err (if ltb (length front) 5 then header_eof else payload_eof)
read_frame_cut f (b0 ∷ b1 ∷ b2 ∷ b3 ∷ t ∷ body) back out x h e =
    let (size_eq, payload_eq) = cut_header f b0 b1 b2 b3 t body back x h e in
    let shorter : length body < length f.payload =
      omega (arith, ap (λ (p : Bytes). length p) payload_eq, length-append body (x ∷ back)) in
    ap (λ (r : Result FrameError Frame × Conn). r.0)
      (read_frame-after_header b0 b1 b2 b3 t body out)
    ∙ rw (
      size_eq,
      ltb-false max_frame_payload (length f.payload) h.small,
      lt→ltb (length body) (length f.payload) shorter,
      ltb-false (suc (suc (suc (suc (suc (length body)))))) 5 (omega arith),
    )
read_frame_cut f front back out x h e =
    ap (λ (r : Result FrameError Frame × Conn). r.0) (read_frame_short front out (omega arith))

after_header_silent :
    (size t : ℕ) (body out : Bytes) → (after_header size t body out).1.output ≡ out
after_header_silent size t body out = ground arith

-- `ReadFrame` writes nothing.
pub read_frame_silent :
    (s out : Bytes) → (read_frame (record { input = s; output = out })).1.output ≡ out
read_frame_silent (b0 ∷ b1 ∷ b2 ∷ b3 ∷ t ∷ body) out =
    rw (read_frame-after_header b0 b1 b2 b3 t body out) (after_header_silent _ t body out)
read_frame_silent s out = rw (read_frame_short s out (omega arith))

after_header-ne-panic : (size t : ℕ) (body out : Bytes) → (after_header size t body out).0 ≢ panic
after_header-ne-panic size t body out = ground arith

-- `ReadFrame` does not panic, whatever it reads.
pub read_frame-ne-panic :
    (s out : Bytes) → (read_frame (record { input = s; output = out })).0 ≢ panic
read_frame-ne-panic (b0 ∷ b1 ∷ b2 ∷ b3 ∷ t ∷ body) out =
    rw (read_frame-after_header b0 b1 b2 b3 t body out) (after_header-ne-panic _ t body out)
read_frame-ne-panic s out = rw (read_frame_short s out (omega arith)) (λ e. cc)
