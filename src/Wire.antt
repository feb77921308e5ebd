-- ===== src/Wire.antt =====
-- internal/pipeline/messages.go: delta operations on the wire. A file's literal bytes travel with
-- their operations, or all together, compressed, with only their lengths in the operations.
pub mod Encode
pub mod Decode
mod Tests
use grsync.Base.{ℕ, zero, suc, ◌+◌, ◌-◌, Bool, true, false, not, ◌&&◌, Option, none, some}
use grsync.Base.{List, [], ◌∷◌, ◌++◌, map, Bytes, length, take, drop, ltb, ◌==◌, if◌then◌else◌}
use grsync.Base.{Result, ok, err, panic, ◌>>=◌}
use grsync.Base.Int.{add_int, lt_int, ℤ, pos, negsuc, wrap_int}
use grsync.Delta.{DeltaOp, copy_op, data_op}
use grsync.Compress.{CompressOptions, Zlib, compress_literal, skip_compress_suffix}

abbrev pub delta_op_kind_copy : ℕ
delta_op_kind_copy = 0

abbrev pub delta_op_kind_data : ℕ
delta_op_kind_data = 1

-- `size` is the field `Length`.
pub record WireDeltaOp : Type 0 where
  pub kind : ℕ
  pub block_index : ℤ
  pub bytes : Bytes
  pub size : ℤ

-- The three fields of a `deltaMessage` behind its path.
pub record WireDelta : Type 0 where
  pub ops : List WireDeltaOp
  pub compressed : Bool
  pub literal : Bytes

unfoldable pub concat_literals : List DeltaOp → Bytes
concat_literals [] = []
concat_literals (copy_op idx ∷ ops) = concat_literals ops
concat_literals (data_op bytes ∷ ops) = bytes ++ concat_literals ops

-- `compressed` says whether the literal bytes travel apart.
unfoldable pub to_wire_op : Bool → DeltaOp → WireDeltaOp
to_wire_op compressed (copy_op idx) = record {
  kind = delta_op_kind_copy;
  block_index = idx;
  bytes = [];
  size = pos 0;
}
to_wire_op true (data_op bytes) = record {
  kind = delta_op_kind_data;
  block_index = pos 0;
  bytes = [];
  size = pos (length bytes);
}
to_wire_op false (data_op bytes) = record {
  kind = delta_op_kind_data;
  block_index = pos 0;
  bytes = bytes;
  size = pos 0;
}

-- The compressed literal bytes, if compression is on for the path and makes them smaller.
unfoldable pub try_compress : Zlib → CompressOptions → Bytes → Bytes → Option Bytes
try_compress z copts path [] = none
try_compress z copts path (c ∷ literal) =
    if copts.enabled && not (skip_compress_suffix path copts.skip_suffixes)
    then compress_literal z copts.level (c ∷ literal)
    else none

unfoldable pub to_wire_delta_ops : Zlib → List DeltaOp → Bytes → CompressOptions → WireDelta
unfolding concat_literals try_compress to_wire_op
to_wire_delta_ops z ops path copts = elim (try_compress z copts path (concat_literals ops)) [
  | none ↦ record { ops = map (to_wire_op false) ops; compressed = false; literal = [] }
  | some packed ↦ record { ops = map (to_wire_op true) ops; compressed = true; literal = packed }
]

-- The number is the index of the operation.
pub data WireError : Type 0 where
  decompress_failed : WireError
  literal_too_short unknown_kind : ℕ → WireError

-- One literal out of the decompressed stream: its bytes and the position behind it. `end` may
-- wrap, and a slice that ends before it begins panics.
unfoldable pub take_literal : ℕ → Bytes → ℕ → ℤ → Result WireError (Bytes × ℕ)
unfolding lt_int
take_literal i stream p (negsuc n) = err (literal_too_short i)
take_literal i stream p (pos n) = elim (wrap_int (p + n)) [
  | negsuc end ↦
      if lt_int (pos (length stream)) (negsuc end) then err (literal_too_short i) else panic
  | pos end ↦
      if ltb (length stream) end
      then err (literal_too_short i)
      else if ltb end p
      then panic
      else ok (take (end - p) (drop p stream), end)
]

unfoldable pub from_wire_op : ℕ → Bool → Bytes → ℕ → WireDeltaOp → Result WireError (DeltaOp × ℕ)
from_wire_op i compressed stream p w =
    if w.kind == delta_op_kind_copy
    then ok (copy_op w.block_index, p)
    else if not (w.kind == delta_op_kind_data)
    then err (unknown_kind i)
    else if not compressed
    then ok (data_op w.bytes, p)
    else (do part ← take_literal i stream p w.size; ok (data_op part.0, part.1))

unfoldable pub from_wire_loop :
    ℕ → Bool → Bytes → ℕ → List WireDeltaOp → Result WireError (List DeltaOp)
unfolding from_wire_op
from_wire_loop i compressed stream p [] = ok []
from_wire_loop i compressed stream p (w ∷ wire) = do
  one ← from_wire_op i compressed stream p w
  ops ← from_wire_loop (i + 1) compressed stream one.1 wire
  ok (one.0 ∷ ops)

unfoldable pub decompress : Zlib → WireDelta → Result WireError Bytes
decompress z d =
    if d.compressed
    then (elim (z.inflate d.literal) [ none ↦ err decompress_failed | some stream ↦ ok stream ])
    else ok []

unfoldable pub from_wire_delta_ops : Zlib → WireDelta → Result WireError (List DeltaOp)
unfolding decompress from_wire_loop
from_wire_delta_ops z d = do stream ← decompress z d; from_wire_loop 0 d.compressed stream 0 d.ops
