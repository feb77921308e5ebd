-- ===== src/Messages.antt =====
-- internal/pipeline/messages.go: the messages of a sync as typed frames. `encoding/gob` is a pair
-- of functions for each type of message.
pub mod Roundtrip
mod Tests
use grsync.Base.{
  ℕ, Bool, true, false, not, Option, none, some, List, [], ◌∷◌, ◌++◌, Bytes, ◌==◌, if◌then◌else◌,
  Result, ok, err, panic,
}
use grsync.Conn.{Conn, Io, pure, throw, crash, ◌>>=◌, ◌>>◌, wrap_err}
use grsync.Delta.{DeltaOp}
use grsync.Compress.{CompressOptions, Zlib}
use grsync.Wire.{WireDelta, WireError, to_wire_delta_ops, from_wire_delta_ops}
use grsync.Transport.Frame.{
  Frame, FrameError, frame_error, frame_file_list, frame_signature, frame_delta, write_frame,
  read_frame,
}
use grsync.Host.{Gob, FileList, SignatureMessage, DeltaMessage}

pub data MessageError : Type 0 where
  writing reading : FrameError → MessageError
  remote_error : Bytes → MessageError
  wrong_type : ℕ → MessageError
  decoding : MessageError
  converting : WireError → MessageError

unfoldable pub check_frame : ℕ → Frame → Io MessageError Frame
check_frame want f =
    if f.frame_type == frame_error
    then throw (remote_error f.payload)
    else if not (f.frame_type == want)
    then throw (wrong_type f.frame_type)
    else pure f

unfoldable pub read_typed_frame : ℕ → Io MessageError Frame
unfolding read_frame check_frame
read_typed_frame want = do f ← wrap_err reading read_frame; check_frame want f

module _ {A : Type 0} (gob : Gob A) where
  unfoldable pub send_message : ℕ → A → Io MessageError (Unit {0})
  unfolding write_frame
  send_message frame_type message =
      wrap_err writing
        (write_frame (record { frame_type = frame_type; payload = gob.encode_gob message }))

  unfoldable pub recv_message : ℕ → Io MessageError A
  unfolding read_typed_frame
  recv_message want = do
    f ← read_typed_frame want
    elim (gob.decode_gob f.payload) [ none ↦ throw decoding | some message ↦ pure message ]

unfoldable pub send_file_list : Gob FileList → FileList → Io MessageError (Unit {0})
unfolding send_message
send_file_list gob list = send_message gob frame_file_list list

unfoldable pub recv_file_list : Gob FileList → Io MessageError FileList
unfolding recv_message
recv_file_list gob = recv_message gob frame_file_list

unfoldable pub send_signature : Gob SignatureMessage → SignatureMessage → Io MessageError (Unit {0})
unfolding send_message
send_signature gob m = send_message gob frame_signature m

unfoldable pub recv_signature : Gob SignatureMessage → Io MessageError SignatureMessage
unfolding recv_message
recv_signature gob = recv_message gob frame_signature

unfoldable pub send_delta :
    Gob DeltaMessage → Zlib → CompressOptions → Bytes → List DeltaOp → Io MessageError (Unit {0})
unfolding send_message to_wire_delta_ops
send_delta gob z copts path ops =
    send_message gob frame_delta
      (record { path = path; delta = to_wire_delta_ops z ops path copts })

-- The operations of a message that has been decoded.
unfoldable pub convert_delta : Zlib → DeltaMessage → Result MessageError (Bytes × List DeltaOp)
unfolding from_wire_delta_ops
convert_delta z m = elim (from_wire_delta_ops z m.delta) [
  | ok ops ↦ ok (m.path, ops)
  | err e ↦ err (converting e)
  | panic ↦ panic
]

unfoldable pub recv_delta : Gob DeltaMessage → Zlib → Io MessageError (Bytes × List DeltaOp)
unfolding recv_message convert_delta
recv_delta gob z = do m ← recv_message gob frame_delta; (λ c. (convert_delta z m, c))
