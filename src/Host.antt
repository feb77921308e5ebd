-- ===== src/Host.antt =====
-- The messages of a sync (internal/pipeline/messages.go), and what surrounds the two programs:
-- `encoding/gob` as a pair of functions for each type of message, the limit that WriteFrame of
-- internal/transport/frame.go sets, and the entries of which the receiver's operating system
-- refuses a call.
use grsync.Base.{Bool, not, Option, List, Bytes, length, ltb}
use grsync.Blocks.{Signature}
use grsync.Sender.{AppendAction}
use grsync.Delta.{DeltaOp}
use grsync.Compress.{CompressOptions, Zlib}
use grsync.Wire.{WireDelta, to_wire_delta_ops}
use grsync.Entry.{FileEntry}
use grsync.Transport.Frame.{max_frame_payload}

pub record FileList : Type 0 where
  pub entries : List FileEntry
  pub groups : List (List Bytes)

pub record SignatureMessage : Type 0 where
  pub path : Bytes
  pub sig : Signature
  pub action : AppendAction

pub record DeltaMessage : Type 0 where
  pub path : Bytes
  pub delta : WireDelta

abbrev pub delta_message : Zlib → List DeltaOp → Bytes → CompressOptions → DeltaMessage
delta_message z ops path copts = record { path = path; delta = to_wire_delta_ops z ops path copts }

pub record Gob (A : Type 0) : Type 0 where
  pub encode_gob : A → Bytes
  pub decode_gob : Bytes → Option A

-- `unreadable`: a call that looks an entry up at the receiver fails; `unwritable`: a call that
-- makes it, writes it or sets its attributes fails.
pub record Host : Type 0 where
  pub lists : Gob FileList
  pub signatures : Gob SignatureMessage
  pub deltas : Gob DeltaMessage
  pub unreadable : FileEntry → Bool
  pub unwritable : FileEntry → Bool

-- Whether WriteFrame takes a message.
unfoldable pub sendable : {A : Type 0} → Gob A → A → Bool
sendable gob message = not (ltb max_frame_payload (length (gob.encode_gob message)))
