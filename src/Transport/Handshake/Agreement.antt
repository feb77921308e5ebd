-- ===== src/Transport/Handshake/Agreement.antt =====
-- The two sides of the handshake against each other, and what success on one side says of the bytes
-- that the other has sent.
use grsync.Base.{
  ℕ, ◌≡◌, refl, sym, ap, ◌∙◌, arith, inl, inr, [], ◌∷◌, ◌++◌, Bytes, IsByte, All, true, ◌==◌,
  Bool-cases,
}
use grsync.Base.{Result, ok, err, panic, ◌⊎◌}
use grsync.Conn.{Conn}
use grsync.Transport.Frame.{frame_hello, Frame, FrameError, read_frame}
use grsync.Transport.Frame.Codec.{encode, IsFrame, write_frame-encode, read_frame-encode}
use grsync.Transport.Frame.Bounds.{read_frame_sound, read_frame_silent, read_frame-ne-panic}
use grsync.Transport.Handshake.{
  HandshakeError, reading, unexpected_type, unsupported_version, hello, hello_ack, is_version,
  check_frame, serve_handshake, handshake,
}

hello-IsFrame : IsFrame hello
hello-IsFrame = record { type_byte = omega arith; small = omega arith }

hello_ack-IsFrame : IsFrame hello_ack
hello_ack-IsFrame = record { type_byte = omega arith; small = omega arith }

serve_handshake-hello :
    (rest out : Bytes)
    → serve_handshake (record { input = encode hello ++ rest; output = out })
      ≡ (ok tt, record { input = rest; output = out ++ encode hello_ack })
unfolding serve_handshake
serve_handshake-hello rest out = rw (
  read_frame-encode hello rest out hello-IsFrame,
  write_frame-encode hello_ack (record { input = rest; output = out }) hello_ack-IsFrame,
)

handshake-hello_ack :
    (rest out : Bytes)
    → handshake (record { input = encode hello_ack ++ rest; output = out })
      ≡ (ok tt, record { input = rest; output = out ++ encode hello })
unfolding handshake
handshake-hello_ack rest out = rw (
  write_frame-encode hello (record { input = encode hello_ack ++ rest; output = out })
      hello-IsFrame,
  read_frame-encode hello_ack rest (out ++ encode hello) hello_ack-IsFrame,
)

-- A client and a server of this program agree: the server answers the client's greeting with its
-- acknowledgement, the client accepts that, and each leaves what follows the frame it read.
pub handshake_agrees :
    (to_server to_client server_out client_out : Bytes)
    → (serve_handshake (record { input = encode hello ++ to_server; output = server_out })
        ≡ (ok tt, record { input = to_server; output = server_out ++ encode hello_ack }))
      × (handshake (record { input = encode hello_ack ++ to_client; output = client_out })
          ≡ (ok tt, record { input = to_client; output = client_out ++ encode hello }))
handshake_agrees to_server to_client server_out client_out =
    (serve_handshake-hello to_server server_out, handshake-hello_ack to_client client_out)

is_version-eq : (p : Bytes) → is_version p ≡ true → p ≡ 1 ∷ []
unfolding is_version
is_version-eq [] h = absurd (cc h)
is_version-eq (v ∷ []) h = ground arith
is_version-eq (v ∷ w ∷ p) h = absurd (cc h)

-- What `check_frame` accepts, with the connection as it was.
check_frame-ok :
    (want : ℕ) (f : Frame) (c : Conn)
    → ((check_frame want f c ≡ (ok tt, c)) × (f ≡ record { frame_type = want; payload = 1 ∷ [] }))
      ⊎ ((e : HandshakeError) × (check_frame want f c ≡ (err e, c)))
unfolding check_frame
check_frame-ok want f c = elim (Bool-cases (f.frame_type == want)) [
  | inl same ↦ elim (Bool-cases (is_version f.payload)) [
    | inl known ↦ inl (rw (same, known), ground (arith, is_version-eq f.payload))
    | inr unknown ↦ inr (unsupported_version f.payload, rw (same, unknown))
  ]
  | inr other ↦ inr (unexpected_type f.frame_type, rw other)
]

-- A server that has finished its handshake: it succeeded on a greeting of this version, which it
-- has acknowledged, or it failed and has written nothing.
abbrev pub Served : Bytes → Bytes → Result HandshakeError (Unit {0}) × Conn → Type 0
Served s out (r, c) =
    ((r ≡ ok tt) × (s ≡ encode hello ++ c.input) × (c.output ≡ out ++ encode hello_ack))
    ⊎ ((e : HandshakeError) × (r ≡ err e) × (c.output ≡ out))

serve_handshake-Served :
    (s out : Bytes) (r : Result FrameError Frame) (c : Conn)
    → All IsByte s
    → read_frame (record { input = s; output = out }) ≡ (r, c)
    → Served s out (serve_handshake (record { input = s; output = out }))
unfolding serve_handshake
serve_handshake-Served s out (ok f) c h e =
    let (_, s_eq, out_eq) = read_frame_sound s out f c h e in
    elim (check_frame-ok frame_hello f c) [
      | inl (accepted, f_eq) ↦
          rw (e, accepted, write_frame-encode hello_ack c hello_ack-IsFrame)
            (inl (
              refl,
              s_eq ∙ ap (λ (g : Frame). encode g ++ c.input) f_eq,
              ap (λ (o : Bytes). o ++ encode hello_ack) out_eq,
            ))
      | inr (x, refused) ↦ rw (e, refused) (inr (x, refl, out_eq))
    ]
serve_handshake-Served s out (err x) c h e = rw e (
    inr (
      reading x,
      refl,
      ap (λ (r : Result FrameError Frame × Conn). r.1.output) (sym e) ∙ read_frame_silent s out,
    ))
serve_handshake-Served s out panic c h e =
    absurd (read_frame-ne-panic s out (ap (λ (r : Result FrameError Frame × Conn). r.0) e))

-- Whatever a client sends, the server's side of the handshake ends without a panic: it succeeds
-- only on the greeting frame of this protocol version, and then has written the acknowledgement
-- and nothing else; otherwise it fails and has written nothing.
pub serve_handshake_exact :
    (s out : Bytes)
    → All IsByte s
    → Served s out (serve_handshake (record { input = s; output = out }))
serve_handshake_exact s out h =
    serve_handshake-Served s out (read_frame (record { input = s; output = out })).0
      (read_frame (record { input = s; output = out })).1 h refl
