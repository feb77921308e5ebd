-- ===== src/Messages/Tests.antt =====
-- Runs of typed frames, and the theorem at a concrete delta; the encoding of the tests is right for
-- messages of one delta.
use grsync.Base.{◌≡◌, refl, arith, false, some, List, [], ◌∷◌, ◌++◌, Bytes, codes, ok, err}
use grsync.Base.Int.{pos}
use grsync.Delta.{DeltaOp, copy_op, data_op}
use grsync.Compress.{CompressOptions}
use grsync.Compress.Pack.{zeros, zeros-Inflates}
use grsync.Wire.{concat_literals, to_wire_delta_ops}
use grsync.Transport.Frame.{frame_delta, frame_error, frame_signature, put_uint32}
use grsync.Transport.Frame.Codec.{encode}
use grsync.Host.{Gob, DeltaMessage}
use grsync.Messages.{remote_error, wrong_type, read_typed_frame, send_delta, recv_delta}
use grsync.Messages.Roundtrip.{recv_delta-send_delta}

abbrev off : CompressOptions
off = record { enabled = false; level = 0; skip_suffixes = [] }

abbrev ops : List DeltaOp
ops = copy_op (pos 1) ∷ data_op (codes "new") ∷ []

abbrev gob : Gob DeltaMessage
gob = record {
  encode_gob = λ m. m.path;
  decode_gob = λ s. some (record { path = s; delta = to_wire_delta_ops zeros ops (codes "f") off });
}

abbrev wire : Bytes
wire = encode (record { frame_type = frame_delta; payload = codes "f" })

read_remote_error :
    read_typed_frame frame_delta (record {
      input = encode (record { frame_type = frame_error; payload = codes "no" });
      output = [];
    })
    ≡ (err (remote_error (codes "no")), record { input = []; output = [] })
unfolding read_typed_frame put_uint32
read_remote_error = refl

read_other :
    read_typed_frame frame_delta (record {
      input = encode (record { frame_type = frame_signature; payload = [] });
      output = [];
    })
    ≡ (err (wrong_type frame_signature), record { input = []; output = [] })
unfolding read_typed_frame put_uint32
read_other = refl

recv_delta-send_delta_example :
    (send_delta gob zeros off (codes "f") ops (record { input = []; output = [] })
      ≡ (ok tt, record { input = []; output = wire }))
    × (recv_delta gob zeros (record { input = wire ++ codes "rest"; output = [] })
        ≡ (ok (codes "f", ops), record { input = codes "rest"; output = [] }))
unfolding concat_literals
recv_delta-send_delta_example =
    recv_delta-send_delta gob zeros zeros-Inflates off (codes "f") ops [] (codes "rest") [] []
      (omega arith) (omega arith) refl
