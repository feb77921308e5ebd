-- ===== src/Sender/Tail.antt =====
-- What the receiver makes of an append delta.
use grsync.Base.{
  ℕ, suc, ◌*◌, ◌^◌, ◌≤◌, ◌<◌, ◌≡◌, refl, ap, ◌∙◌, arith, List, [], ◌∷◌, ◌++◌, Bytes, length, drop,
  ltb-false, append-nil, take-ge_length,
}
use grsync.Base.{ok, inl}
use grsync.Base.Int.{pos, wrap_int}
use grsync.Blocks.{Signature}
use grsync.Delta.{DeltaOp, apply_copy, apply_loop, apply_delta}
use grsync.Delta.Apply.{FitsInt, copy_slice_inside}
use grsync.Sender.{tail_ops, append_tail_ops}

-- Block 0 of blocks as long as the file is the file.
apply_copy-whole :
    (i : ℕ) (c : ℕ) (old : Bytes)
    → length (c ∷ old) < 2 ^ 62
    → apply_copy i (c ∷ old) (pos (length (c ∷ old))) (pos 0) ≡ ok (c ∷ old)
unfolding apply_copy wrap_int
apply_copy-whole i c old h =
    let fits : FitsInt (c ∷ old) (suc (length old)) = record {
      size_fits = omega arith;
      file_fits = h;
    } in
    let start : wrap_int (0 * suc (length old)) ≡ pos 0 = ground arith in
    rw start (
      copy_slice_inside i (c ∷ old) (length old) 0 fits (omega arith) (inl refl)
      ∙ ap (λ b. ok (c ∷ b)) (take-ge_length (length old) old (omega arith)))

-- The signature of an append: the length that is trusted, and no blocks.
abbrev pub trusting : Bytes → Signature
trusting old = record { block_size = pos (length old); blocks = [] }

apply_delta-tail_ops :
    (old tail : Bytes)
    → length old < 2 ^ 62
    → apply_delta old (tail_ops (length old) tail) (trusting old) ≡ ok (old ++ tail)
unfolding apply_delta tail_ops apply_loop
apply_delta-tail_ops [] [] h = refl
apply_delta-tail_ops [] (t ∷ tail) h = refl
apply_delta-tail_ops (c ∷ old) [] h = rw (apply_copy-whole 0 c old h, append-nil old) refl
apply_delta-tail_ops (c ∷ old) (t ∷ tail) h = rw (apply_copy-whole 0 c old h) refl

-- For a source that is no shorter than the trusted file, which is below 2 ^ 62 bytes, there is an
-- append delta, and applied to the trusted file it leaves that file as it is, whatever the source
-- has in its place, followed by what the source has behind that length.
pub append_tail_ops-apply_delta :
    (old data_bytes : Bytes)
    → length old < 2 ^ 62
    → length old ≤ length data_bytes
    → (ops : List DeltaOp) × (append_tail_ops (pos (length old)) data_bytes ≡ ok ops)
      × (apply_delta old ops (trusting old) ≡ ok (old ++ drop (length old) data_bytes))
unfolding append_tail_ops
append_tail_ops-apply_delta old data_bytes h longer = (
  tail_ops (length old) (drop (length old) data_bytes),
  rw (ltb-false (length data_bytes) (length old) longer) refl,
  apply_delta-tail_ops old (drop (length old) data_bytes) h,
)
