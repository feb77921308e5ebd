-- ===== src/Delta/Greedy.antt =====
-- What `GenerateDelta` computes, with no rolling checksum, no index of weak sums and no fuel: at
-- each position the first block that has both checksums of the window is copied, and a byte at
-- which there is none is sent as it is.
use grsync.Base.{ℕ, zero, suc, ◌+◌, ◌-◌, ◌<◌, ◌≡◌, refl, sym, ap, ◌∙◌, arith}
use grsync.Base.{Option, none, some, ◌&&◌, List, [], ◌∷◌, ◌++◌, Bytes}
use grsync.Base.{length, take, drop, get_elem?, ltb, ◌==◌, if◌then◌else◌}
use grsync.Base.{same_bytes, append-nil, append_assoc}
use grsync.Base.Int.{pos}
use grsync.Checksum.{new_weak_checksum, sum}
use grsync.Blocks.{BlockSignature}
use grsync.Delta.{DeltaOp, copy_op, WeakIndex, build_index, flush_pending, first_strong}

-- The first block, counted from `i`, with both checksums.
unfoldable pub find_block : ℕ → List BlockSignature → ℕ → Bytes → Option ℕ
find_block i [] weak strong = none
find_block i (b ∷ blocks) weak strong =
    if (weak == b.weak) && same_bytes b.strong strong
    then some i
    else find_block (i + 1) blocks weak strong

drop_pred : (size c : ℕ) (rest : Bytes) → 0 < size → drop (size - 1) rest ≡ drop size (c ∷ rest)
drop_pred zero c rest h = absurd (omega arith)
drop_pred (suc k) c rest h = let e : suc k - 1 ≡ k = omega arith in rw e

module _ (strong_checksum : Bytes → Bytes) (size : ℕ) (blocks : List BlockSignature) where
  -- The block that matches the window at the front, its checksums computed from scratch.
  unfoldable pub match_front : Bytes → Option ℕ
  match_front rest =
      if ltb (length rest) size
      then none
      else find_block 0 blocks (sum (new_weak_checksum (take size rest)))
          (strong_checksum (take size rest))

  -- The first argument counts the bytes that a matched block still covers.
  unfoldable pub greedy : ℕ → Bytes → Bytes → List DeltaOp → List DeltaOp
  unfolding flush_pending
  greedy skip [] pending ops = flush_pending pending ops
  greedy (suc skip) (c ∷ rest) pending ops = greedy skip rest pending ops
  greedy zero (c ∷ rest) pending ops = elim (match_front (c ∷ rest)) [
    | some idx ↦ greedy (size - 1) rest [] (flush_pending pending ops ++ (copy_op (pos idx) ∷ []))
    | none ↦ greedy zero rest (pending ++ (c ∷ [])) ops
  ]

  pub greedy-skip :
      (skip : ℕ) (rest pending : Bytes) (ops : List DeltaOp)
      → greedy skip rest pending ops ≡ greedy 0 (drop skip rest) pending ops
  unfolding greedy
  greedy-skip zero rest pending ops = refl
  greedy-skip (suc skip) [] pending ops = refl
  greedy-skip (suc skip) (c ∷ rest) pending ops = greedy-skip skip rest pending ops

  pub greedy_hit :
      (c : ℕ) (rest pending : Bytes) (ops : List DeltaOp) (idx : ℕ)
      → 0 < size
      → match_front (c ∷ rest) ≡ some idx
      → greedy 0 (c ∷ rest) pending ops
        ≡ greedy 0 (drop size (c ∷ rest)) [] (flush_pending pending ops ++ (copy_op (pos idx) ∷ []))
  unfolding greedy
  greedy_hit c rest pending ops idx h hit =
      rw (hit, greedy)
        (greedy-skip (size - 1) rest [] _
          ∙ ap
              (λ (t : Bytes). greedy 0 t [] (flush_pending pending ops ++ (copy_op (pos idx) ∷ [])))
              (drop_pred size c rest h))

  pub greedy_miss :
      (c : ℕ) (rest pending : Bytes) (ops : List DeltaOp)
      → match_front (c ∷ rest) ≡ none
      → greedy 0 (c ∷ rest) pending ops ≡ greedy 0 rest (pending ++ (c ∷ [])) ops
  unfolding greedy
  greedy_miss c rest pending ops miss = rw (miss, greedy)

  -- Fewer bytes than a block are sent as they are.
  pub greedy-short :
      (rest pending : Bytes) (ops : List DeltaOp)
      → length rest < size
      → greedy 0 rest pending ops ≡ flush_pending (pending ++ rest) ops
  unfolding greedy match_front
  greedy-short [] pending ops h = rw append-nil
  greedy-short (c ∷ rest) pending ops h =
      ground
        (arith, greedy-short rest (pending ++ (c ∷ [])) ops, append_assoc pending (c ∷ []) rest)

-- The entries of the index for one weak sum.
indices : ℕ → List BlockSignature → ℕ → List ℕ
indices i [] weak = []
indices i (b ∷ blocks) weak =
    if weak == b.weak then i ∷ indices (i + 1) blocks weak else indices (i + 1) blocks weak

build_index-indices :
    (i : ℕ) (blocks : List BlockSignature) (index : WeakIndex) (weak : ℕ)
    → build_index i blocks index weak ≡ index weak ++ indices i blocks weak
unfolding build_index indices
build_index-indices i [] index weak = sym (append-nil (index weak))
build_index-indices i (b ∷ blocks) index weak =
    build_index-indices (i + 1) blocks _ weak
    ∙ ground (arith, append_assoc (index weak) (i ∷ []) (indices (i + 1) blocks weak))

-- `rest` is what follows the first `i` blocks of `blocks`.
first_strong-indices :
    (i : ℕ) (rest blocks : List BlockSignature) (weak : ℕ) (strong : Bytes)
    → ((j : ℕ) → get_elem? blocks (i + j) ≡ get_elem? rest j)
    → first_strong blocks strong (indices i rest weak) ≡ find_block i rest weak strong
unfolding first_strong indices find_block
first_strong-indices i [] blocks weak strong h = refl
first_strong-indices i (b ∷ rest) blocks weak strong h =
    ground (arith, first, first_strong-indices (i + 1) rest blocks weak strong next)
  where
    first : get_elem? blocks i ≡ some b
    first = let e : i + 0 ≡ i = omega arith in rw e at (h 0)

    next : (j : ℕ) → get_elem? blocks (i + 1 + j) ≡ get_elem? rest j
    next j = let e : i + suc j ≡ i + 1 + j = omega arith in rw e at (h (suc j))

-- The index and the loop over its candidates find the first block with both checksums.
pub first_strong-find_block :
    (blocks : List BlockSignature) (weak : ℕ) (strong : Bytes)
    → first_strong blocks strong (build_index 0 blocks (λ _. []) weak)
      ≡ find_block 0 blocks weak strong
first_strong-find_block blocks weak strong = rw (build_index-indices 0 blocks (λ _. []) weak) (
    first_strong-indices 0 blocks blocks weak strong (λ j. let e : 0 + j ≡ j = omega arith in rw e))
