-- ===== src/Delta/Apply.antt =====
-- `ApplyDelta`: what each operation reads, and the order of the output.
use grsync.Base.{ℕ, zero, suc, ◌+◌, ◌-◌, ◌*◌, ◌^◌, ◌≤◌, ◌<◌, ◌≡◌, ap, arith, inl, inr}
use grsync.Base.{Option, none, some, List, [], ◌∷◌, ◌++◌, Bytes, length, take, drop, get_elem?}
use grsync.Base.{take-ge_length, length-drop, ltb}
use grsync.Base.{bind-eq-ok, ok_injective, ◌⊎◌, Result, ok, err, Bool-cases, ltb→lt}
use grsync.Base.Int.{ℤ, pos, wrap_int-small}
use grsync.Blocks.{split_blocks}
use grsync.Blocks.Split.{block_at, split_blocks-block_at}
use grsync.Delta.{
  DeltaOp, copy_op, data_op, ApplyError, block_out_of_range, slice, copy_slice, apply_copy,
  apply_loop,
}

-- A block that is not there is the error of operation `i`.
abbrev pub or_out_of_range : ℕ → Option Bytes → Result ApplyError Bytes
or_out_of_range i none = err (block_out_of_range i)
or_out_of_range i (some block) = ok block

-- Sizes of a Go program: a block size is an `int`, and a file's bytes fit in memory.
pub record FitsInt (file : Bytes) (size : ℕ) : Type 0 where
  pub size_fits : size < 2 ^ 63
  pub file_fits : length file < 2 ^ 62

-- A start inside the file that is 0 or at least one block: its end does not wrap.
pub copy_slice_inside :
    (i : ℕ) (old : Bytes) (k start : ℕ)
    → FitsInt old (suc k)
    → start < length old
    → (start ≡ 0) ⊎ (suc k ≤ start)
    → copy_slice i old (suc k) (pos start) ≡ ok (take (suc k) (drop start old))
unfolding copy_slice slice
copy_slice_inside i old k start fits h away = rw (wrap_int-small (start + suc k) (omega arith)) (
    ground (
      arith,
      length-drop start old,
      take-ge_length (length old - start) (drop start old),
      take-ge_length (suc k) (drop start old),
      end_minus_start,
    ))
  where
    end_minus_start : start + suc k - start ≡ suc k
    end_minus_start = omega arith

block_start : (k idx : ℕ) → (idx * suc k ≡ 0) ⊎ (suc k ≤ idx * suc k)
block_start k zero = inl (omega arith)
block_start k (suc idx) = inr (omega arith)

copy_slice-block_at :
    (i : ℕ) (old : Bytes) (k idx : ℕ)
    → FitsInt old (suc k)
    → copy_slice i old (suc k) (pos (idx * suc k)) ≡ or_out_of_range i (block_at (suc k) old idx)
unfolding copy_slice slice
copy_slice-block_at i old k idx fits = elim (Bool-cases (ltb (idx * suc k) (length old))) [
  | inl inside ↦
      rw inside
        (copy_slice_inside i old k (idx * suc k) fits (ltb→lt _ _ inside) (block_start k idx))
  | inr outside ↦ rw outside (ground arith)
]

-- While `idx * blockSize` fits an int, a `CopyOp` gives block `idx` of the old file as
-- `splitBlocks` cuts it, and the out-of-range error where there is no such block.
pub apply_copy-split_blocks :
    (i : ℕ) (old : Bytes) (k idx : ℕ)
    → FitsInt old (suc k)
    → idx * suc k < 2 ^ 63
    → apply_copy i old (pos (suc k)) (pos idx)
      ≡ or_out_of_range i (get_elem? (split_blocks old (pos (suc k))) idx)
unfolding apply_copy
apply_copy-split_blocks i old k idx fits h =
    rw (wrap_int-small (idx * suc k) h, split_blocks-block_at old k idx)
      (copy_slice-block_at i old k idx fits)

pub apply_loop-append :
    (i : ℕ) (old : Bytes) (size : ℤ) (xs ys : List DeltaOp) (out : Bytes) {mid : Bytes}
    → apply_loop i old size xs out ≡ ok mid
    → apply_loop i old size (xs ++ ys) out ≡ apply_loop (i + length xs) old size ys mid
unfolding apply_loop
apply_loop-append i old size [] ys out h =
    let e : i + 0 ≡ i = omega arith in rw e (ap (apply_loop i old size ys) (ok_injective h))
apply_loop-append i old size (copy_op idx ∷ xs) ys out h =
    let (block, read, more) = bind-eq-ok (apply_copy i old size idx) _ h in
    let e : i + suc (length xs) ≡ i + 1 + length xs = omega arith in
    rw (read, e) (apply_loop-append (i + 1) old size xs ys (out ++ block) more)
apply_loop-append i old size (data_op b ∷ xs) ys out h =
    let e : i + suc (length xs) ≡ i + 1 + length xs = omega arith in
    rw e (apply_loop-append (i + 1) old size xs ys (out ++ b) h)
