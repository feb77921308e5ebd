-- ===== src/Delta/Roundtrip.antt =====
-- Applying the delta of a new file to the old file gives the new file.
use grsync.Base.{ℕ, zero, suc, ◌+◌, ◌-◌, ◌≤◌, ◌≡◌, refl, sym, ap, ◌∙◌, arith, inl, inr}
use grsync.Base.{some, List, [], ◌∷◌, ◌++◌, map, Bytes, IsByte, All, length, take, drop, get_elem?}
use grsync.Base.{
  append_assoc, append-nil, ltb, ◌==◌, Bool-cases, Option-cases, same_bytes, same_bytes→eq, not_ltb,
}
use grsync.Base.{take-append-drop, ok, ◌&&◌}
use grsync.Base.Int.{pos}
use grsync.Checksum.{new_weak_checksum, sum}
use grsync.Blocks.{
  BlockSignature, block_signature, split_blocks, generate_signature_with_block_size,
}
use grsync.Blocks.Split.{block_at-some, split_blocks-block_at}
use grsync.Delta.{
  DeltaOp, copy_op, flush_pending, generate_delta, apply_loop, apply_copy, apply_delta,
  effective_block_size,
}
use grsync.Delta.Greedy.{find_block, match_front, greedy}
use grsync.Delta.Scan.{generate_delta-greedy}
use grsync.Delta.Apply.{FitsInt, apply_copy-split_blocks, apply_loop-append}

-- What `find_block` finds has both checksums.
record Found (blocks : List BlockSignature) (i weak : ℕ) (strong : Bytes) (idx : ℕ) : Type 0 where
  at : ℕ
  idx_eq : idx ≡ i + at
  block : BlockSignature
  block_eq : get_elem? blocks at ≡ some block
  weak_eq : block.weak ≡ weak
  strong_eq : block.strong ≡ strong

find_block-Found :
    (i : ℕ) (blocks : List BlockSignature) (weak : ℕ) (strong : Bytes) (idx : ℕ)
    → find_block i blocks weak strong ≡ some idx
    → Found blocks i weak strong idx
unfolding find_block
find_block-Found i [] weak strong idx h = absurd (cc h)
find_block-Found i (b ∷ blocks) weak strong idx h =
    elim (Bool-cases ((weak == b.weak) && same_bytes b.strong strong)) [
      | inl hit ↦ record {
        at = 0;
        idx_eq = ground arith;
        block = b;
        block_eq = refl;
        weak_eq = ground arith;
        strong_eq = ground (arith, same_bytes→eq b.strong strong);
      }
      | inr miss ↦
          let rest : Found blocks (i + 1) weak strong idx =
            find_block-Found (i + 1) blocks weak strong idx (rw miss at h) in
          record {
            at = suc rest.at;
            idx_eq = omega (arith, rest.idx_eq);
            block = rest.block;
            block_eq = rest.block_eq;
            weak_eq = rest.weak_eq;
            strong_eq = rest.strong_eq;
          }
    ]

get_elem?-map :
    {A B : Type 0} (f : A → B) (xs : List A) (i : ℕ) {y : B}
    → get_elem? (map f xs) i ≡ some y
    → (x : A) × (get_elem? xs i ≡ some x) × (f x ≡ y)
get_elem?-map f [] i h = absurd (cc h)
get_elem?-map f (x ∷ xs) zero h = (x, refl, cc h)
get_elem?-map f (x ∷ xs) (suc i) h = get_elem?-map f xs i h

-- No block of the old file and different window of the new bytes share both checksums.
abbrev pub NoCollision : (Bytes → Bytes) → Bytes → ℕ → Bytes → Type 0
NoCollision strong_checksum old size rest =
    (i j : ℕ) (b : Bytes)
    → get_elem? (split_blocks old (pos size)) i ≡ some b
    → j + size ≤ length rest
    → sum (new_weak_checksum b) ≡ sum (new_weak_checksum (take size (drop j rest)))
    → strong_checksum b ≡ strong_checksum (take size (drop j rest))
    → b ≡ take size (drop j rest)

module _ (strong_checksum : Bytes → Bytes) (old : Bytes) (k : ℕ) (fits : FitsInt old (suc k)) where
  abbrev blocks : List BlockSignature
  blocks = map (block_signature strong_checksum) (split_blocks old (pos (suc k)))

  Found-block :
      (rest : Bytes) (idx : ℕ)
      → NoCollision strong_checksum old (suc k) rest
      → suc k ≤ length rest
      → Found blocks 0
          (sum (new_weak_checksum (take (suc k) rest)))
          (strong_checksum (take (suc k) rest))
          idx
      → get_elem? (split_blocks old (pos (suc k))) idx ≡ some (take (suc k) rest)
  unfolding block_signature
  Found-block rest idx distinct long found =
      let (b, at_b, b_eq) =
        get_elem?-map (block_signature strong_checksum) (split_blocks old (pos (suc k))) found.at
          found.block_eq in
      let same =
        distinct found.at 0 b at_b (omega arith)
          (ap (λ (s : BlockSignature). s.weak) b_eq ∙ found.weak_eq)
          (ap (λ (s : BlockSignature). s.strong) b_eq ∙ found.strong_eq) in
      let e : idx ≡ found.at = omega (arith, found.idx_eq) in rw e (at_b ∙ ap some same)

  match_front-block :
      (rest : Bytes) (idx : ℕ)
      → NoCollision strong_checksum old (suc k) rest
      → match_front strong_checksum (suc k) blocks rest ≡ some idx
      → get_elem? (split_blocks old (pos (suc k))) idx ≡ some (take (suc k) rest)
  unfolding match_front
  match_front-block rest idx distinct h = elim (Bool-cases (ltb (length rest) (suc k))) [
    | inl short ↦ absurd (cc (rw short at h))
    | inr long ↦
        Found-block rest idx distinct (not_ltb _ _ long)
          (find_block-Found 0 blocks _ _ idx (rw long at h))
  ]

  apply_copy_block :
      (i idx : ℕ) (block : Bytes)
      → get_elem? (split_blocks old (pos (suc k))) idx ≡ some block
      → apply_copy i old (pos (suc k)) (pos idx) ≡ ok block
  apply_copy_block i idx block h =
      apply_copy-split_blocks i old k idx fits (
        omega (
          arith,
          fits.file_fits,
          block_at-some (suc k) old idx (sym (split_blocks-block_at old k idx) ∙ h),
        ))
      ∙ rw h

  apply_loop-flush :
      (pending : Bytes) (ops : List DeltaOp) {out : Bytes}
      → apply_loop 0 old (pos (suc k)) ops [] ≡ ok out
      → apply_loop 0 old (pos (suc k)) (flush_pending pending ops) [] ≡ ok (out ++ pending)
  unfolding flush_pending
  apply_loop-flush [] ops h = rw append-nil h
  apply_loop-flush (c ∷ pending) ops h =
      apply_loop-append 0 old _ ops _ [] h ∙ unfold apply_loop in refl

  apply_loop-copy :
      (idx : ℕ) (block : Bytes) (ops : List DeltaOp) {out : Bytes}
      → get_elem? (split_blocks old (pos (suc k))) idx ≡ some block
      → apply_loop 0 old (pos (suc k)) ops [] ≡ ok out
      → apply_loop 0 old (pos (suc k)) (ops ++ (copy_op (pos idx) ∷ [])) [] ≡ ok (out ++ block)
  unfolding apply_loop
  apply_loop-copy idx block ops at_block h =
      apply_loop-append 0 old _ ops _ [] h ∙ rw (apply_copy_block _ idx block at_block)

  NoCollision-tail :
      (c : ℕ) (rest : Bytes)
      → NoCollision strong_checksum old (suc k) (c ∷ rest)
      → NoCollision strong_checksum old (suc k) rest
  NoCollision-tail c rest distinct i j b at_b h = distinct i (suc j) b at_b (omega arith)

  apply_loop-greedy :
      (skip : ℕ) (rest pending : Bytes) (ops : List DeltaOp) {out : Bytes}
      → NoCollision strong_checksum old (suc k) rest
      → apply_loop 0 old (pos (suc k)) ops [] ≡ ok out
      → apply_loop 0 old
          (pos (suc k))
          (greedy strong_checksum (suc k) blocks skip rest pending ops)
          []
        ≡ ok (out ++ (pending ++ drop skip rest))
  unfolding greedy
  apply_loop-greedy zero [] pending ops distinct h = rw append-nil (apply_loop-flush pending ops h)
  apply_loop-greedy (suc skip) [] pending ops distinct h =
      rw append-nil (apply_loop-flush pending ops h)
  apply_loop-greedy (suc skip) (c ∷ rest) pending ops distinct h =
      apply_loop-greedy skip rest pending ops (NoCollision-tail c rest distinct) h
  apply_loop-greedy zero (c ∷ rest) pending ops {out} distinct h =
      elim (Option-cases (match_front strong_checksum (suc k) blocks (c ∷ rest))) [
        | inl miss ↦
            rw (miss, greedy)
              (apply_loop-greedy zero rest (pending ++ (c ∷ [])) ops
                  (NoCollision-tail c rest distinct) h
                ∙ ap (λ (t : Bytes). ok (out ++ t)) (append_assoc pending (c ∷ []) rest))
        | inr (idx, hit) ↦
            let e : suc k - 1 ≡ k = omega arith in
            let copied =
              apply_loop-copy idx _ (flush_pending pending ops)
                (match_front-block (c ∷ rest) idx distinct hit) (apply_loop-flush pending ops h) in
            rw (hit, greedy, e)
              (apply_loop-greedy k rest [] _ (NoCollision-tail c rest distinct) copied
                ∙ ap ok (simp (append_assoc, take-append-drop)))
      ]

-- The delta that `GenerateDelta` computes for `new_data` against the signature of `old`, applied
-- by `ApplyDelta` to `old` with that signature, succeeds and gives `new_data`, whatever the block
-- size: for a positive block size that is an int, an old file below 2 ^ 62 bytes, bytes below 256,
-- and no window of the new file that shares both checksums with a different block of the old one.
pub apply_delta-generate_delta :
    (strong_checksum : Bytes → Bytes) (old : Bytes) (k : ℕ) (new_data : Bytes)
    → FitsInt old (suc k)
    → All IsByte new_data
    → NoCollision strong_checksum old (suc k) new_data
    → let sig = generate_signature_with_block_size strong_checksum old (pos (suc k)) in
      (ops : List DeltaOp) × (generate_delta strong_checksum sig new_data ≡ some ops)
      × (apply_delta old ops sig ≡ ok new_data)
unfolding apply_delta generate_signature_with_block_size
apply_delta-generate_delta strong_checksum old k new_data fits bytes distinct = (
  _,
  generate_delta-greedy strong_checksum _ new_data bytes,
  unfold effective_block_size in
      apply_loop-greedy strong_checksum old k fits 0 new_data [] [] distinct
        (unfold apply_loop in refl),
)
