-- ===== src/Transport/Frame.antt =====
-- internal/transport/frame.go. A frame type is a byte; a payload is a list of bytes.
pub mod Codec
pub mod Bounds
mod Tests
use grsync.Base.{ℕ, ◌+◌, ◌*◌, ◌/◌, ◌%◌, ◌^◌, List, [], ◌∷◌, ◌++◌, Bytes, length, ltb, if◌then◌else◌}
use grsync.Conn.{Io, pure, throw, crash, ◌>>=◌, ◌>>◌, write, read_full}

pub record Frame : Type 0 where
  pub frame_type : ℕ
  pub payload : Bytes

abbrev pub frame_hello : ℕ
frame_hello = 0

abbrev pub frame_hello_ack : ℕ
frame_hello_ack = 1

abbrev pub frame_error : ℕ
frame_error = 2

abbrev pub frame_file_list : ℕ
frame_file_list = 3

abbrev pub frame_signature : ℕ
frame_signature = 4

abbrev pub frame_delta : ℕ
frame_delta = 5

-- 64 * 1024 * 1024
abbrev pub max_frame_payload : ℕ
max_frame_payload = 67_108_864

pub data FrameError : Type 0 where
  payload_too_large : ℕ → FrameError
  header_eof payload_eof : FrameError

-- `binary.BigEndian.PutUint32`, of a number below 2 ^ 32
unfoldable pub put_uint32 : ℕ → Bytes
put_uint32 n = n / 2 ^ 24 % 256 ∷ n / 2 ^ 16 % 256 ∷ n / 2 ^ 8 % 256 ∷ n % 256 ∷ []

-- `binary.BigEndian.Uint32`
unfoldable pub uint32 : ℕ → ℕ → ℕ → ℕ → ℕ
uint32 b0 b1 b2 b3 = b0 * 2 ^ 24 + b1 * 2 ^ 16 + b2 * 2 ^ 8 + b3

unfoldable pub write_frame : Frame → Io FrameError (Unit {0})
unfolding put_uint32 write
write_frame f =
    if ltb max_frame_payload (length f.payload)
    then throw (payload_too_large (length f.payload))
    else (do
      write (put_uint32 (length f.payload % 2 ^ 32) ++ (f.frame_type % 256 ∷ []))
      if ltb 0 (length f.payload) then write f.payload else pure tt)

-- `make` and `io.ReadFull` come after the test of the length.
unfoldable pub read_payload : Bytes → Io FrameError Frame
unfolding uint32 read_full
read_payload (b0 ∷ b1 ∷ b2 ∷ b3 ∷ frame_type ∷ []) =
    let size = uint32 b0 b1 b2 b3 in
    if ltb max_frame_payload size then throw (payload_too_large size) else (do
      payload ← if ltb 0 size then read_full size payload_eof else pure []
      pure (record { frame_type = frame_type; payload = payload }))
read_payload _ = crash

unfoldable pub read_frame : Io FrameError Frame
unfolding read_payload read_full
read_frame = do header ← read_full 5 header_eof; read_payload header
