-- ===== src/Delta/Shape.antt =====
-- The form of the deltas that `GenerateDelta` produces, for any signature.
use grsync.Base.{ℕ, zero, suc, ◌+◌, ◌-◌, ◌<◌, ◌≡◌, arith, inl, inr, some}
use grsync.Base.{List, [], ◌∷◌, ◌++◌, Bytes, IsByte, All, length, ltb}
use grsync.Base.{Option-cases, Bool-cases, append-nil, append_assoc}
use grsync.Base.Int.{ℤ, pos, negsuc}
use grsync.Blocks.{BlockSignature, Signature}
use grsync.Delta.{DeltaOp, copy_op, data_op, flush_pending, generate_delta}
use grsync.Delta.Greedy.{find_block, match_front, greedy}
use grsync.Delta.Scan.{generate_delta-greedy}

abbrev pub IsIndex : ℕ → ℤ → Type 0
IsIndex n (pos i) = i < n
IsIndex n (negsuc i) = ⊥

abbrev pub StartsWithCopy : List DeltaOp → Type 0
StartsWithCopy (data_op b ∷ ops) = ⊥
StartsWithCopy _ = Unit

-- Each copy names one of `n` blocks, no literal is empty, and no two literals are adjacent.
abbrev pub IsCanonical : ℕ → List DeltaOp → Type 0
IsCanonical n [] = Unit
IsCanonical n (copy_op idx ∷ ops) = IsIndex n idx × IsCanonical n ops
IsCanonical n (data_op b ∷ ops) = (0 < length b) × StartsWithCopy ops × IsCanonical n ops

-- Canonical operations may follow.
abbrev Accepts : ℕ → List DeltaOp → Type 0
Accepts n ops = (more : List DeltaOp) → IsCanonical n more → IsCanonical n (ops ++ more)

find_block-lt :
    (i : ℕ) (blocks : List BlockSignature) (weak : ℕ) (strong : Bytes) (idx : ℕ)
    → find_block i blocks weak strong ≡ some idx
    → idx < i + length blocks
unfolding find_block
find_block-lt i [] weak strong idx h = absurd (cc h)
find_block-lt i (b ∷ blocks) weak strong idx h =
    ground (arith, find_block-lt (i + 1) blocks weak strong idx)

Accepts-copy :
    (n idx : ℕ) (pending : Bytes) (ops : List DeltaOp)
    → idx < n
    → Accepts n ops
    → Accepts n (flush_pending pending ops ++ (copy_op (pos idx) ∷ []))
unfolding flush_pending
Accepts-copy n idx [] ops h acc more m =
    rw (append_assoc ops (copy_op (pos idx) ∷ []) more) (acc (copy_op (pos idx) ∷ more) (h, m))
Accepts-copy n idx (c ∷ pending) ops h acc more m =
    rw
      (
        append_assoc ops (data_op (c ∷ pending) ∷ []) (copy_op (pos idx) ∷ []),
        append_assoc ops (data_op (c ∷ pending) ∷ copy_op (pos idx) ∷ []) more,
      )
      (acc (data_op (c ∷ pending) ∷ copy_op (pos idx) ∷ more) (omega arith, tt, (h, m)))

flush_pending-IsCanonical :
    (n : ℕ) (pending : Bytes) (ops : List DeltaOp)
    → Accepts n ops
    → IsCanonical n (flush_pending pending ops)
unfolding flush_pending
flush_pending-IsCanonical n [] ops acc = rw (append-nil ops) at (acc [] tt)
flush_pending-IsCanonical n (c ∷ pending) ops acc =
    acc (data_op (c ∷ pending) ∷ []) (omega arith, tt, tt)

module _ (strong_checksum : Bytes → Bytes) (size : ℕ) (blocks : List BlockSignature) where
  match_front-lt :
      (rest : Bytes) (idx : ℕ)
      → match_front strong_checksum size blocks rest ≡ some idx
      → idx < length blocks
  unfolding match_front
  match_front-lt rest idx h = elim (Bool-cases (ltb (length rest) size)) [
    | inl short ↦ absurd (cc (rw short at h))
    | inr long ↦ omega (arith, find_block-lt 0 blocks _ _ idx (rw long at h))
  ]

  greedy-IsCanonical :
      (skip : ℕ) (rest pending : Bytes) (ops : List DeltaOp)
      → Accepts (length blocks) ops
      → IsCanonical (length blocks) (greedy strong_checksum size blocks skip rest pending ops)
  unfolding greedy
  greedy-IsCanonical zero [] pending ops acc = flush_pending-IsCanonical _ pending ops acc
  greedy-IsCanonical (suc skip) [] pending ops acc = flush_pending-IsCanonical _ pending ops acc
  greedy-IsCanonical (suc skip) (c ∷ rest) pending ops acc =
      greedy-IsCanonical skip rest pending ops acc
  greedy-IsCanonical zero (c ∷ rest) pending ops acc =
      elim (Option-cases (match_front strong_checksum size blocks (c ∷ rest))) [
        | inl miss ↦ rw (miss, greedy) (greedy-IsCanonical zero rest (pending ++ (c ∷ [])) ops acc)
        | inr (idx, hit) ↦
            rw (hit, greedy)
              (greedy-IsCanonical (size - 1) rest [] _
                (Accepts-copy _ idx pending ops (match_front-lt (c ∷ rest) idx hit) acc))
      ]

-- For any signature and any new file of bytes below 256, `GenerateDelta` gives a delta in which
-- every copy names a block of the signature, no literal is empty and no two literals are adjacent.
pub generate_delta-IsCanonical :
    (strong_checksum : Bytes → Bytes) (sig : Signature) (new_data : Bytes)
    → All IsByte new_data
    → (ops : List DeltaOp) × (generate_delta strong_checksum sig new_data ≡ some ops)
      × IsCanonical (length sig.blocks) ops
generate_delta-IsCanonical strong_checksum sig new_data bytes = (
  _,
  generate_delta-greedy strong_checksum sig new_data bytes,
  greedy-IsCanonical strong_checksum _ sig.blocks 0 new_data [] [] (λ more m. m),
)
