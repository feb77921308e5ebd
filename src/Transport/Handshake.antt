-- ===== src/Transport/Handshake.antt =====
-- internal/transport/handshake.go: each side sends one frame that names the protocol version.
pub mod Agreement
mod Tests
use grsync.Base.{ℕ, Bool, true, false, not, [], ◌∷◌, Bytes, ◌==◌, if◌then◌else◌}
use grsync.Conn.{Io, throw, pure, ◌>>=◌, ◌>>◌, wrap_err}
use grsync.Transport.Frame.{
  Frame, FrameError, frame_hello, frame_hello_ack, write_frame, read_frame,
}

abbrev pub protocol_version : ℕ
protocol_version = 1

pub data HandshakeError : Type 0 where
  reading writing : FrameError → HandshakeError
  unexpected_type : ℕ → HandshakeError
  unsupported_version : Bytes → HandshakeError

abbrev pub hello : Frame
hello = record { frame_type = frame_hello; payload = protocol_version ∷ [] }

abbrev pub hello_ack : Frame
hello_ack = record { frame_type = frame_hello_ack; payload = protocol_version ∷ [] }

-- The negation of `len(f.Payload) != 1 || f.Payload[0] != ProtocolVersion`.
unfoldable pub is_version : Bytes → Bool
is_version (v ∷ []) = v == protocol_version
is_version _ = false

-- Both sides refuse a frame of another type, then another version.
unfoldable pub check_frame : ℕ → Frame → Io HandshakeError (Unit {0})
unfolding is_version
check_frame want f =
    if f.frame_type == want
    then (if is_version f.payload then pure tt else throw (unsupported_version f.payload))
    else throw (unexpected_type f.frame_type)

unfoldable pub serve_handshake : Io HandshakeError (Unit {0})
unfolding check_frame
serve_handshake = do
  f ← wrap_err reading read_frame
  check_frame frame_hello f
  wrap_err writing (write_frame hello_ack)

unfoldable pub handshake : Io HandshakeError (Unit {0})
unfolding check_frame
handshake = do
  wrap_err writing (write_frame hello)
  f ← wrap_err reading read_frame
  check_frame frame_hello_ack f
