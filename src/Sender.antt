-- ===== src/Sender.antt =====
-- internal/pipeline/sender.go: the sender's answer to one file's signature, its file read.
pub mod Tail
mod Tests
use grsync.Base.{
  ℕ, zero, suc, Option, none, some, List, [], ◌∷◌, ◌++◌, Bytes, length, drop, ltb, if◌then◌else◌,
}
use grsync.Base.{Result, ok, err, panic}
use grsync.Base.Int.{ℤ, pos, negsuc}
use grsync.Blocks.{Signature}
use grsync.Delta.{DeltaOp, copy_op, data_op, generate_delta}

-- What a signature message asks of the sender.
pub data AppendAction : Type 0 where
  append_none append_tail append_skip : AppendAction

pub data AppendError : Type 0 where
  source_shrank : AppendError

unfoldable pub tail_ops : ℕ → Bytes → List DeltaOp
tail_ops zero [] = []
tail_ops zero (c ∷ tail) = data_op (c ∷ tail) ∷ []
tail_ops (suc n) [] = copy_op (pos 0) ∷ []
tail_ops (suc n) (c ∷ tail) = copy_op (pos 0) ∷ data_op (c ∷ tail) ∷ []

-- A negative length passes both tests, and the slice from it panics.
unfoldable pub append_tail_ops : ℤ → Bytes → Result AppendError (List DeltaOp)
unfolding tail_ops
append_tail_ops (negsuc n) data_bytes = panic
append_tail_ops (pos n) data_bytes =
    if ltb (length data_bytes) n then err source_shrank else ok (tail_ops n (drop n data_bytes))

-- `none` would be `GenerateDelta` without a result.
unfoldable pub sender_ops :
    (Bytes → Bytes) → AppendAction → Signature → Bytes → Option (Result AppendError (List DeltaOp))
unfolding append_tail_ops
sender_ops strong_checksum append_skip sig data_bytes = some (ok [])
sender_ops strong_checksum append_tail sig data_bytes =
    some (append_tail_ops sig.block_size data_bytes)
sender_ops strong_checksum append_none sig data_bytes =
    elim (generate_delta strong_checksum sig data_bytes) [ none ↦ none | some ops ↦ some (ok ops) ]
