-- ===== src/Wire/Tests.antt =====
-- Runs of the wire encoding, and its theorems at concrete deltas.
use grsync.Base.{◌≡◌, refl, arith, true, false, some, List, [], ◌∷◌, ◌++◌, Bytes, length, codes}
use grsync.Base.{ok}
use grsync.Base.Int.{pos, wrap_int}
use grsync.Delta.{DeltaOp, copy_op, data_op}
use grsync.Compress.Pack.{pack, unpack, zeros, zeros-Inflates}
use grsync.Compress.{CompressOptions, compress_literal, skip_compress_suffix}
use grsync.Wire.{WireDelta, to_wire_delta_ops, from_wire_delta_ops, take_literal, concat_literals}
use grsync.Wire.Encode.{from_wire_delta_ops-to_wire_delta_ops}
use grsync.Wire.Decode.{from_wire_delta_ops_sound}

abbrev ops : List DeltaOp
ops = copy_op (pos 2) ∷ data_op (0 ∷ 0 ∷ 7 ∷ []) ∷ copy_op (pos 0) ∷ data_op (8 ∷ []) ∷ []

abbrev on : CompressOptions
on = record { enabled = true; level = 6; skip_suffixes = codes "gz" ∷ [] }

-- The literals of all operations, compressed together.
abbrev message : WireDelta
message = record {
  ops =
      record { kind = 0; block_index = pos 2; bytes = []; size = pos 0 }
      ∷ record { kind = 1; block_index = pos 0; bytes = []; size = pos 3 }
      ∷ record { kind = 0; block_index = pos 0; bytes = []; size = pos 0 }
      ∷ record { kind = 1; block_index = pos 0; bytes = []; size = pos 1 }
      ∷ [];
  compressed = true;
  literal = 1 ∷ 7 ∷ 8 ∷ [];
}

encode_packed : to_wire_delta_ops zeros ops (codes "a.txt") on ≡ message
unfolding to_wire_delta_ops skip_compress_suffix compress_literal pack
encode_packed = refl

decode_packed : from_wire_delta_ops zeros message ≡ ok ops
unfolding from_wire_delta_ops take_literal wrap_int unpack
decode_packed = refl

encode_skipped : (to_wire_delta_ops zeros ops (codes "a.gz") on).compressed ≡ false
unfolding to_wire_delta_ops skip_compress_suffix
encode_skipped = refl

from_wire_delta_ops-to_wire_delta_ops_example :
    from_wire_delta_ops zeros (to_wire_delta_ops zeros ops (codes "a.txt") on) ≡ ok ops
from_wire_delta_ops-to_wire_delta_ops_example =
    from_wire_delta_ops-to_wire_delta_ops zeros zeros-Inflates ops (codes "a.txt") on
      (unfold concat_literals in omega arith)

from_wire_delta_ops_sound_example :
    (length ops ≡ length message.ops)
    × ((rest : Bytes) × (zeros.inflate message.literal ≡ some (concat_literals ops ++ rest)))
from_wire_delta_ops_sound_example = from_wire_delta_ops_sound zeros message ops refl decode_packed
