-- ===== src/Messages/Roundtrip.antt =====
-- Messages that are sent and received.
use grsync.Base.{
  ℕ, ◌^◌, ◌≤◌, ◌<◌, ◌≡◌, refl, ap, ◌∙◌, arith, true, false, some, List, ◌++◌, Bytes, length, ◌==◌,
  Result, ok,
}
use grsync.Conn.{Conn, resume, wrap_result}
use grsync.Delta.{DeltaOp}
use grsync.Compress.{CompressOptions, Zlib, Inflates}
use grsync.Wire.{to_wire_delta_ops, concat_literals}
use grsync.Wire.Encode.{from_wire_delta_ops-to_wire_delta_ops}
use grsync.Transport.Frame.{Frame, FrameError, max_frame_payload, frame_error, frame_delta}
use grsync.Transport.Frame.Codec.{encode, IsFrame, write_frame-encode, read_frame-encode}
use grsync.Host.{Gob, DeltaMessage}
use grsync.Messages.{
  reading, check_frame, read_typed_frame, send_message, recv_message, send_delta, convert_delta,
  recv_delta,
}

module _ {A : Type 0} (gob : Gob A) where
  abbrev frame_of : ℕ → A → Frame
  frame_of frame_type message = record { frame_type = frame_type; payload = gob.encode_gob message }

  send_message-encode :
      (frame_type : ℕ) (message : A) (c : Conn)
      → IsFrame (frame_of frame_type message)
      → send_message gob frame_type message c
        ≡ (ok tt, record c { output = c.output ++ encode (frame_of frame_type message) })
  unfolding send_message
  send_message-encode frame_type message c h =
      rw (write_frame-encode (frame_of frame_type message) c h) refl

  check_frame_own :
      (frame_type : ℕ) (message : A) (c : Conn)
      → (frame_type == frame_error) ≡ false
      → check_frame frame_type (frame_of frame_type message) c
        ≡ (ok (frame_of frame_type message), c)
  unfolding check_frame
  check_frame_own frame_type message c plain =
      let own : (frame_type == frame_type) ≡ true = ground arith in rw (plain, own) refl

  read_typed_frame-encode :
      (frame_type : ℕ) (message : A) (rest out : Bytes)
      → IsFrame (frame_of frame_type message)
      → (frame_type == frame_error) ≡ false
      → read_typed_frame frame_type
          (record { input = encode (frame_of frame_type message) ++ rest; output = out })
        ≡ (ok (frame_of frame_type message), record { input = rest; output = out })
  unfolding read_typed_frame
  read_typed_frame-encode frame_type message rest out h plain =
      ap
        (λ (p : Result FrameError Frame × Conn).
          resume (wrap_result reading p.0) (check_frame frame_type) p.1)
        (read_frame-encode (frame_of frame_type message) rest out h)
      ∙ check_frame_own frame_type message (record { input = rest; output = out }) plain

  recv_message-encode :
      (frame_type : ℕ) (message : A) (rest out : Bytes)
      → gob.decode_gob (gob.encode_gob message) ≡ some message
      → IsFrame (frame_of frame_type message)
      → (frame_type == frame_error) ≡ false
      → recv_message gob frame_type
          (record { input = encode (frame_of frame_type message) ++ rest; output = out })
        ≡ (ok message, record { input = rest; output = out })
  unfolding recv_message
  recv_message-encode frame_type message rest out law h plain =
      rw (read_typed_frame-encode frame_type message rest out h plain, law) refl

module _ (gob : Gob DeltaMessage) (z : Zlib) (inflates : Inflates z) where
  -- A delta that is sent, compressed or not, is received with its path and its operations, and what
  -- follows it is left: a message of at most 64 MiB whose literal bytes are fewer than 2 ^ 63. Gob
  -- decodes the message from what it has encoded, and zlib inflates what it has deflated.
  pub recv_delta-send_delta :
      (copts : CompressOptions) (path : Bytes) (ops : List DeltaOp) (input rest out got : Bytes)
      → length (concat_literals ops) < 2 ^ 63
      → length (gob.encode_gob (record { path = path; delta = to_wire_delta_ops z ops path copts }))
        ≤ max_frame_payload
      → gob.decode_gob
          (gob.encode_gob (record { path = path; delta = to_wire_delta_ops z ops path copts }))
        ≡ some (record { path = path; delta = to_wire_delta_ops z ops path copts })
      → let wire = encode (record {
        frame_type = frame_delta;
        payload =
            gob.encode_gob (record { path = path; delta = to_wire_delta_ops z ops path copts });
      }) in
        (send_delta gob z copts path ops (record { input = input; output = out })
          ≡ (ok tt, record { input = input; output = out ++ wire }))
        × (recv_delta gob z (record { input = wire ++ rest; output = got })
            ≡ (ok (path, ops), record { input = rest; output = got }))
  unfolding send_delta recv_delta convert_delta
  recv_delta-send_delta copts path ops input rest out got short small law =
      let m : DeltaMessage = record { path = path; delta = to_wire_delta_ops z ops path copts } in
      let fits : IsFrame (record { frame_type = frame_delta; payload = gob.encode_gob m }) =
        record { type_byte = omega arith; small = small } in
      (
        send_message-encode gob frame_delta m (record { input = input; output = out }) fits,
        (rw
            (
              recv_message-encode gob frame_delta m rest got law fits refl,
              convert_delta,
              from_wire_delta_ops-to_wire_delta_ops z inflates ops path copts short,
            )
            refl),
      )
