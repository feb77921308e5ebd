-- ===== src/Receiver.antt =====
-- internal/pipeline/receiver.go: what the receiver does with one regular file, its old bytes read
-- and the sender's operations received; and `ReceiverOptions` of internal/pipeline/itemize.go.
pub mod Counts
pub mod Transfer
pub mod Written
mod Tests
use grsync.Base.{
  ℕ, zero, suc, ◌+◌, ◌-◌, ◌*◌, ◌^◌, Bool, true, false, not, ◌&&◌, ◌||◌, Option, none, some,
}
use grsync.Base.{
  List, [], ◌∷◌, ◌++◌, Bytes, length, leb, ltb, if◌then◌else◌, same_bytes, Result, ok, err, panic,
}
use grsync.Base.Int.{ℤ, pos, negsuc, add_int, mul_int, sub_int, lt_int}
use grsync.Blocks.{Signature, generate_signature}
use grsync.Delta.{DeltaOp, copy_op, data_op, ApplyError, apply_delta}
use grsync.Sender.{AppendAction, append_none, append_tail, append_skip}

-- Without the writer `Output`.
pub record ReceiverOptions : Type 0 where
  pub dry_run : Bool
  pub itemize : Bool
  pub verbose : Bool
  pub progress : Bool
  pub stats : Bool
  pub partial : Bool
  pub partial_dir : Bytes
  pub append : Bool
  pub append_verify : Bool

unfoldable pub append_mode : ReceiverOptions → Bool
append_mode o = o.append || o.append_verify

-- `size` is the source's size in the file list.
unfoldable pub choose_signature :
    (Bytes → Bytes) → ReceiverOptions → Bool → Bytes → ℤ → AppendAction × Signature
unfolding append_mode lt_int
choose_signature strong_checksum o existed old size =
    if not (append_mode o) || not existed
    then (append_none, generate_signature strong_checksum old)
    else if not (lt_int (pos (length old)) size)
    then (append_skip, record { block_size = pos 0; blocks = [] })
    else if o.append_verify
    then (append_none, generate_signature strong_checksum old)
    else (append_tail, record { block_size = pos (length old); blocks = [] })

unfoldable pub new_content :
    AppendAction → Bytes → List DeltaOp → Signature → Result ApplyError Bytes
new_content append_skip old ops sig = ok old
new_content append_none old ops sig = apply_delta old ops sig
new_content append_tail old ops sig = apply_delta old ops sig

unfoldable pub is_skip : AppendAction → Bool
is_skip append_skip = true
is_skip append_none = false
is_skip append_tail = false

unfoldable pub content_changed : AppendAction → Bytes → Bytes → Bool
unfolding is_skip same_bytes
content_changed action old new_data = not (is_skip action) && not (same_bytes old new_data)

-- Whether the file is written. `old` is `oldData`: what the destination has, or a partial file.
unfoldable pub transferred : AppendAction → Bool → Bytes → Bytes → Bool
unfolding content_changed
transferred action existed old new_data =
    not (is_skip action) && (not existed || content_changed action old new_data)

-- One `CopyOp` of `deltaByteCounts`: what it adds to the matched bytes.
unfoldable pub matched_bytes : ℤ → ℕ → ℤ → ℤ
unfolding add_int mul_int sub_int lt_int
matched_bytes block_size old_len idx =
    let start = mul_int idx block_size in
    let end = add_int start block_size in
    let cut = if lt_int (pos old_len) end then pos old_len else end in
    if lt_int start cut then sub_int cut start else pos 0

-- The loop of `deltaByteCounts` with its two sums.
unfoldable pub count_loop : List DeltaOp → ℤ → ℕ → ℤ → ℤ → ℤ × ℤ
unfolding matched_bytes
count_loop [] block_size old_len literal matched = (literal, matched)
count_loop (data_op bytes ∷ ops) block_size old_len literal matched =
    count_loop ops block_size old_len (add_int literal (pos (length bytes))) matched
count_loop (copy_op idx ∷ ops) block_size old_len literal matched =
    count_loop ops block_size old_len literal
      (add_int matched (matched_bytes block_size old_len idx))

unfoldable pub delta_byte_counts : List DeltaOp → ℤ → ℕ → ℤ × ℤ
unfolding count_loop
delta_byte_counts ops block_size old_len = count_loop ops block_size old_len (pos 0) (pos 0)
