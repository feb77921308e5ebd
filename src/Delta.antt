-- ===== src/Delta.antt =====
-- internal/sync/delta.go: `GenerateDelta` and `ApplyDelta`. The inner and the outer loop of
-- `GenerateDelta` are `slide` and `advance`; `rest` is `newData[pos:]`. `strong_checksum` stands
-- for crypto/md5.
pub mod Greedy
pub mod Scan
pub mod Apply
pub mod Roundtrip
pub mod Shape
pub mod Unchanged
mod Tests
use grsync.Base.{not}
use grsync.Base.{ℕ, zero, suc, ◌+◌, ◌-◌, ◌*◌, Bool, true, false, Option, none, some}
use grsync.Base.{List, [], ◌∷◌, ◌++◌, Bytes, length, take, drop, get_elem?, get_or}
use grsync.Base.{ltb, leb, ◌==◌, if◌then◌else◌, same_bytes, Result, ok, err, panic, ◌>>=◌}
use grsync.Base.Int.{add_int, lt_int, ℤ, pos, negsuc, wrap_int}
use grsync.Checksum.{WeakChecksum, new_weak_checksum, sum, roll}
use grsync.Blocks.{BlockSignature, Signature}

pub data DeltaOp : Type 0 where
  copy_op : ℤ → DeltaOp
  data_op : Bytes → DeltaOp

-- `blockSize <= 0` means `DefaultBlockSize`.
unfoldable pub effective_block_size : ℤ → ℕ
effective_block_size (pos (suc k)) = suc k
effective_block_size _ = 700

-- The map from a weak sum to the indices of the blocks that have it; a missing key is `[]`.
abbrev pub WeakIndex : Type 0
WeakIndex = ℕ → List ℕ

unfoldable pub build_index : ℕ → List BlockSignature → WeakIndex → WeakIndex
build_index i [] index = index
build_index i (b ∷ blocks) index =
    build_index (i + 1) blocks (λ j. if j == b.weak then index j ++ (i ∷ []) else index j)

unfoldable pub flush_pending : Bytes → List DeltaOp → List DeltaOp
flush_pending [] ops = ops
flush_pending (c ∷ pending) ops = ops ++ (data_op (c ∷ pending) ∷ [])

-- The loop over the candidates: the first whose strong checksum is `strong`.
unfoldable pub first_strong : List BlockSignature → Bytes → List ℕ → Option ℕ
first_strong blocks strong [] = none
first_strong blocks strong (idx ∷ candidates) = elim (get_elem? blocks idx) [
  | none ↦ none
  | some b ↦ if same_bytes b.strong strong then some idx else first_strong blocks strong candidates
]

module _ (strong_checksum : Bytes → Bytes) (block_size : ℕ) (blocks : List BlockSignature) where
  -- The window is the `block_size` bytes at the front of `rest`, with rolling checksum `weak`.
  unfoldable pub try_match : WeakIndex → Bytes → WeakChecksum → Option ℕ
  unfolding first_strong
  try_match index rest weak =
      first_strong blocks (strong_checksum (take block_size rest)) (index (sum weak))

  -- The head of the outer loop. `next` enters the inner loop; `none` is a model run out of fuel.
  unfoldable pub advance :
      (WeakChecksum → Bytes → Bytes → List DeltaOp → Option (List DeltaOp))
      → Bytes
      → Bytes
      → List DeltaOp
      → Option (List DeltaOp)
  unfolding flush_pending
  advance next [] pending ops = some (flush_pending pending ops)
  advance next (c ∷ rest) pending ops =
      if ltb (length (c ∷ rest)) block_size
      then some (flush_pending (pending ++ (c ∷ rest)) ops)
      else next (new_weak_checksum (take block_size (c ∷ rest))) (c ∷ rest) pending ops

  -- No block matches: one more literal byte, and the window rolls on if it still fits.
  unfoldable pub literal_step :
      (WeakChecksum → Bytes → Bytes → List DeltaOp → Option (List DeltaOp))
      → WeakChecksum
      → Bytes
      → Bytes
      → List DeltaOp
      → Option (List DeltaOp)
  unfolding advance
  literal_step next weak [] pending ops = none
  literal_step next weak (c ∷ rest) pending ops =
      if ltb (length rest) block_size
      then advance next rest (pending ++ (c ∷ [])) ops
      else next (roll weak c (get_or rest (block_size - 1) 0)) rest (pending ++ (c ∷ [])) ops

  unfoldable pub slide :
      WeakIndex → ℕ → WeakChecksum → Bytes → Bytes → List DeltaOp → Option (List DeltaOp)
  unfolding literal_step try_match
  slide index zero weak rest pending ops = none
  slide index (suc f) weak rest pending ops = elim (try_match index rest weak) [
    | some idx ↦
        advance (slide index f) (drop block_size rest) []
          (flush_pending pending ops ++ (copy_op (pos idx) ∷ []))
    | none ↦ literal_step (slide index f) weak rest pending ops
  ]

-- Every round of the inner loop takes a byte at least.
unfoldable pub generate_delta : (Bytes → Bytes) → Signature → Bytes → Option (List DeltaOp)
unfolding slide build_index effective_block_size
generate_delta strong_checksum sig new_data =
    let index = build_index 0 sig.blocks (λ _. []) in
    let size = effective_block_size sig.block_size in
    advance strong_checksum size sig.blocks
      (slide strong_checksum size sig.blocks index (length new_data)) new_data [] []

-- The number in an error is the index of the operation.
pub data ApplyError : Type 0 where
  invalid_block_size block_out_of_range : ℕ → ApplyError

-- Go's `old[start:end]`, which panics on bounds out of range.
unfoldable pub slice : Bytes → ℤ → ℤ → Result ApplyError Bytes
slice old (pos start) (pos end) =
    if leb start end
    then (if leb end (length old) then ok (take (end - start) (drop start old)) else panic)
    else panic
slice old _ _ = panic

-- The slice that a `CopyOp` reads, after the test of its start. A product that has wrapped to a
-- negative start passes the test, and the slice panics, whatever its end.
unfoldable pub copy_slice : ℕ → Bytes → ℕ → ℤ → Result ApplyError Bytes
unfolding slice lt_int add_int
copy_slice i old size (negsuc start) =
    if not (lt_int (negsuc start) (pos (length old)))
    then err (block_out_of_range i)
    else slice old (negsuc start) (add_int (negsuc start) (pos size))
copy_slice i old size (pos start) =
    if leb (length old) start then err (block_out_of_range i) else elim (wrap_int (start + size)) [
      | pos end ↦ slice old (pos start) (pos (if ltb (length old) end then length old else end))
      | negsuc end ↦ panic
    ]

unfoldable pub apply_copy : ℕ → Bytes → ℤ → ℤ → Result ApplyError Bytes
unfolding copy_slice
apply_copy i old (pos (suc k)) (pos idx) = copy_slice i old (suc k) (wrap_int (idx * suc k))
apply_copy i old (pos (suc k)) (negsuc idx) = err (block_out_of_range i)
apply_copy i old _ idx = err (invalid_block_size i)

unfoldable pub apply_loop : ℕ → Bytes → ℤ → List DeltaOp → Bytes → Result ApplyError Bytes
unfolding apply_copy
apply_loop i old size [] out = ok out
apply_loop i old size (copy_op idx ∷ ops) out = do
  block ← apply_copy i old size idx
  apply_loop (i + 1) old size ops (out ++ block)
apply_loop i old size (data_op bytes ∷ ops) out = apply_loop (i + 1) old size ops (out ++ bytes)

unfoldable pub apply_delta : Bytes → List DeltaOp → Signature → Result ApplyError Bytes
unfolding apply_loop
apply_delta old ops sig = apply_loop 0 old sig.block_size ops []
