-- ===== src/Transport/Handshake/Tests.antt =====
-- Runs of the handshake, and its theorems at concrete bytes.
use grsync.Base.{◌≡◌, refl, arith, [], ◌∷◌, ◌++◌, ok, err}
use grsync.Transport.Frame.{read_frame, put_uint32}
use grsync.Transport.Frame.Codec.{encode}
use grsync.Transport.Handshake.{hello, hello_ack, unsupported_version, serve_handshake, handshake}
use grsync.Transport.Handshake.Agreement.{Served, handshake_agrees, serve_handshake_exact}

other_version :
    (serve_handshake (record { input = 0 ∷ 0 ∷ 0 ∷ 1 ∷ 0 ∷ 2 ∷ []; output = [] })).0
    ≡ err (unsupported_version (2 ∷ []))
unfolding serve_handshake read_frame
other_version = refl

handshake_agrees_example :
    (serve_handshake (record { input = encode hello ++ []; output = [] })
      ≡ (ok tt, record { input = []; output = encode hello_ack }))
    × (handshake (record { input = encode hello_ack ++ (9 ∷ []); output = [] })
        ≡ (ok tt, record { input = 9 ∷ []; output = encode hello }))
handshake_agrees_example = handshake_agrees [] (9 ∷ []) [] []

serve_handshake_exact_example :
    Served (encode hello) [] (serve_handshake (record { input = encode hello; output = [] }))
unfolding put_uint32
serve_handshake_exact_example = serve_handshake_exact (encode hello) [] (omega arith)
