-- ===== src/Blocks/Split.antt =====
-- Where the blocks of a file lie.
use grsync.Base.{ℕ, zero, suc, ◌+◌, ◌*◌, ◌≤◌, ◌<◌, ◌≡◌, refl, sym, ap, ◌∙◌, arith}
use grsync.Base.{Option, none, some, [], ◌∷◌, ◌++◌, Bytes, length, take, drop, get_elem?}
use grsync.Base.{length-drop, take-append-drop, drop-drop}
use grsync.Base.{if◌then◌else◌, ltb}
use grsync.Base.Int.{pos}
use mathlib.Core.List.{flatten}
use grsync.Blocks.{split_loop, split_blocks}

-- Block `i` of a file, with no loop.
abbrev pub block_at : ℕ → Bytes → ℕ → Option Bytes
block_at size file i =
    if ltb (i * size) (length file) then some (take size (drop (i * size) file)) else none

block_at-first : (k c : ℕ) (rest : Bytes) → block_at (suc k) (c ∷ rest) 0 ≡ some (c ∷ take k rest)
block_at-first k c rest = let e : 0 * suc k ≡ 0 = omega arith in rw e (ground arith)

block_at-next :
    (k c i : ℕ) (rest : Bytes)
    → block_at (suc k) (drop k rest) i ≡ block_at (suc k) (c ∷ rest) (suc i)
block_at-next k c i rest =
    let e : suc i * suc k ≡ suc (k + i * suc k) = omega arith in
    rw (e, drop-drop (i * suc k) k rest) (ground (arith, length-drop k rest))

split_loop-block_at :
    (f k : ℕ) (rest : Bytes) (i : ℕ)
    → length rest ≤ f
    → get_elem? (split_loop f (suc k) rest) i ≡ block_at (suc k) rest i
unfolding split_loop
split_loop-block_at zero k [] i h = ground arith
split_loop-block_at zero k (c ∷ rest) i h = absurd (omega arith)
split_loop-block_at (suc f) k [] i h = ground arith
split_loop-block_at (suc f) k (c ∷ rest) zero h = sym (block_at-first k c rest)
split_loop-block_at (suc f) k (c ∷ rest) (suc i) h =
    split_loop-block_at f k (drop k rest) i (omega (arith, length-drop k rest))
    ∙ block_at-next k c i rest

-- Block `i` of the file is the slice of `size` bytes that begins at `i * size`, cut off at the
-- file's end; past the end there is none.
pub split_blocks-block_at :
    (file : Bytes) (k i : ℕ)
    → get_elem? (split_blocks file (pos (suc k))) i ≡ block_at (suc k) file i
unfolding split_blocks
split_blocks-block_at file k i = split_loop-block_at (length file) k file i (omega arith)

split_loop_join :
    (f k : ℕ) (rest : Bytes) → length rest ≤ f → flatten (split_loop f (suc k) rest) ≡ rest
unfolding split_loop flatten
split_loop_join zero k [] h = refl
split_loop_join zero k (c ∷ rest) h = absurd (omega arith)
split_loop_join (suc f) k [] h = refl
split_loop_join (suc f) k (c ∷ rest) h =
    ap (λ (t : Bytes). c ∷ take k rest ++ t)
      (split_loop_join f k (drop k rest) (omega (arith, length-drop k rest)))
    ∙ ap (◌∷◌ c) (take-append-drop k rest)

-- The blocks of a file, one after the other, are the file.
pub flatten-split_blocks : (file : Bytes) (k : ℕ) → flatten (split_blocks file (pos (suc k))) ≡ file
unfolding split_blocks
flatten-split_blocks file k = split_loop_join (length file) k file (omega arith)

pub block_at-some :
    (size : ℕ) (file : Bytes) (i : ℕ) {b : Bytes}
    → block_at size file i ≡ some b
    → i * size < length file
block_at-some size file i h = ground arith
