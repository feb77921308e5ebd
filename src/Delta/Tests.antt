-- ===== src/Delta/Tests.antt =====
-- Runs of the delta algorithm, and its theorems at concrete files. The strong checksum of the tests
-- is the block itself.
use grsync.Base.{◌%◌, ◌≡◌, refl, arith, some, List, [], ◌∷◌, Bytes, length, codes}
use grsync.Base.{ok, err, get_elem?, same_bytes}
use grsync.Base.Int.{pos, wrap_int}
use grsync.Checksum.{new_weak_checksum, sum, roll}
use grsync.Blocks.{Signature, generate_signature_with_block_size, block_signature, split_blocks}
use grsync.Delta.{
  DeltaOp, copy_op, data_op, generate_delta, apply_delta, block_out_of_range, effective_block_size,
  apply_copy,
}
use grsync.Delta.Greedy.{greedy}
use grsync.Delta.Scan.{generate_delta-greedy}
use grsync.Delta.Apply.{FitsInt, or_out_of_range, apply_copy-split_blocks}
use grsync.Delta.Roundtrip.{apply_delta-generate_delta}
use grsync.Delta.Shape.{IsCanonical, generate_delta-IsCanonical}
use grsync.Delta.Unchanged.{literal_bytes, literal_bytes_unchanged}

abbrev own : Bytes → Bytes
own block = block

abbrev old_file : Bytes
old_file = codes "abcdefg"

abbrev new_file : Bytes
new_file = codes "xdefabcz"

abbrev old_sig : Signature
old_sig = generate_signature_with_block_size own old_file (pos 3)

abbrev old_ops : List DeltaOp
old_ops = data_op (codes "x") ∷ copy_op (pos 1) ∷ copy_op (pos 0) ∷ data_op (codes "z") ∷ []

generate_moved : generate_delta own old_sig new_file ≡ some old_ops
unfolding generate_delta generate_signature_with_block_size split_blocks sum new_weak_checksum
    block_signature roll same_bytes
generate_moved = refl

apply_moved : apply_delta old_file old_ops old_sig ≡ ok new_file
unfolding apply_delta generate_signature_with_block_size wrap_int
apply_moved = refl

apply_bad_index : apply_delta old_file (copy_op (pos 3) ∷ []) old_sig ≡ err (block_out_of_range 0)
unfolding apply_delta generate_signature_with_block_size wrap_int
apply_bad_index = refl

fits_old : FitsInt old_file 3
fits_old = record { size_fits = omega arith; file_fits = omega arith }

generate_delta-greedy_example :
    generate_delta own old_sig new_file
    ≡ some (greedy own (effective_block_size old_sig.block_size) old_sig.blocks 0 new_file [] [])
generate_delta-greedy_example = generate_delta-greedy own old_sig new_file (omega arith)

apply_copy-split_blocks_example :
    apply_copy 0 old_file (pos 3) (pos 2)
    ≡ or_out_of_range 0 (get_elem? (split_blocks old_file (pos 3)) 2)
apply_copy-split_blocks_example = apply_copy-split_blocks 0 old_file 2 2 fits_old (omega arith)

apply_delta-generate_delta_example :
    (ops : List DeltaOp) × (generate_delta own old_sig new_file ≡ some ops)
    × (apply_delta old_file ops old_sig ≡ ok new_file)
apply_delta-generate_delta_example =
    apply_delta-generate_delta own old_file 2 new_file fits_old (omega arith) (λ i j b _ _ _ e. e)

generate_delta-IsCanonical_example :
    (ops : List DeltaOp) × (generate_delta own old_sig new_file ≡ some ops)
    × IsCanonical (length old_sig.blocks) ops
generate_delta-IsCanonical_example = generate_delta-IsCanonical own old_sig new_file (omega arith)

literal_bytes_unchanged_example :
    (ops : List DeltaOp) × (generate_delta own old_sig old_file ≡ some ops)
    × (literal_bytes ops ≡ length old_file % 3)
literal_bytes_unchanged_example = literal_bytes_unchanged own old_file 2 (omega arith)
