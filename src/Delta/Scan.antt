-- ===== src/Delta/Scan.antt =====
-- The loops of `GenerateDelta` against the greedy definition.
use grsync.Base.{ℕ, zero, suc, ◌-◌, ◌≤◌, ◌<◌, ◌≡◌, refl, sym, ap, ◌∙◌, arith, inl, inr}
use grsync.Base.{none, some, List, [], ◌∷◌, ◌++◌, Bytes, IsByte, All, length, take, drop}
use grsync.Base.{
  get_or, ltb, Bool-cases, Option-cases, ltb-false, not_ltb, ltb→lt, length-drop, All-drop,
}
use grsync.Base.Int.{ℤ, pos, negsuc}
use grsync.Checksum.{WeakChecksum, new_weak_checksum, roll}
use grsync.Checksum.Roll.{roll-new_weak_checksum}
use grsync.Blocks.{BlockSignature, Signature}
use grsync.Delta.{
  DeltaOp, copy_op, build_index, flush_pending, try_match, advance, literal_step, slide,
  effective_block_size, generate_delta,
}
use grsync.Delta.Greedy.{
  match_front, greedy, greedy-short, greedy_hit, greedy_miss, first_strong-find_block,
}

take-snoc :
    (k : ℕ) (rest : Bytes)
    → k < length rest
    → take k rest ++ (get_or rest k 0 ∷ []) ≡ take (suc k) rest
take-snoc k [] h = absurd (omega arith)
take-snoc zero (c ∷ rest) h = refl
take-snoc (suc k) (c ∷ rest) h = ap (◌∷◌ c) (take-snoc k rest (omega arith))

-- Rolling past `c` gives the checksum of the window that begins behind it.
roll_window :
    (k c : ℕ) (rest : Bytes)
    → IsByte c
    → k < length rest
    → roll (new_weak_checksum (take (suc k) (c ∷ rest))) c (get_or rest k 0)
      ≡ new_weak_checksum (take (suc k) rest)
roll_window k c rest hc h =
    roll-new_weak_checksum c (take k rest) (get_or rest k 0) hc
    ∙ ap new_weak_checksum (take-snoc k rest h)

module _ (strong_checksum : Bytes → Bytes) (k : ℕ) (blocks : List BlockSignature) where
  try_match-match_front :
      (rest : Bytes)
      → suc k ≤ length rest
      → try_match strong_checksum
          (suc k)
          blocks
          (build_index 0 blocks (λ _. []))
          rest
          (new_weak_checksum (take (suc k) rest))
        ≡ match_front strong_checksum (suc k) blocks rest
  unfolding try_match match_front
  try_match-match_front rest h =
      rw (ltb-false (length rest) (suc k) h) (first_strong-find_block blocks _ _)

  slide_hit :
      (index : ℕ → List ℕ) (f idx : ℕ) (weak : WeakChecksum) (rest pending : Bytes)
      (ops : List DeltaOp)
      → try_match strong_checksum (suc k) blocks index rest weak ≡ some idx
      → slide strong_checksum (suc k) blocks index (suc f) weak rest pending ops
        ≡ advance strong_checksum
            (suc k)
            blocks
            (slide strong_checksum (suc k) blocks index f)
            (drop (suc k) rest)
            []
            (flush_pending pending ops ++ (copy_op (pos idx) ∷ []))
  unfolding slide
  slide_hit index f idx weak rest pending ops hit = rw (hit, slide)

  slide_miss :
      (index : ℕ → List ℕ) (f : ℕ) (weak : WeakChecksum) (rest pending : Bytes) (ops : List DeltaOp)
      → try_match strong_checksum (suc k) blocks index rest weak ≡ none
      → slide strong_checksum (suc k) blocks index (suc f) weak rest pending ops
        ≡ literal_step strong_checksum
            (suc k)
            blocks
            (slide strong_checksum (suc k) blocks index f)
            weak
            rest
            pending
            ops
  unfolding slide
  slide_miss index f weak rest pending ops miss = rw (miss, slide)

  -- The loops with `f` rounds left, and the greedy definition, from a window with fresh checksum.
  Scans : ℕ → Type 0
  Scans f =
      (rest pending : Bytes) (ops : List DeltaOp)
      → All IsByte rest
      → suc k ≤ length rest
      → length rest ≤ f
      → slide strong_checksum (suc k) blocks (build_index 0 blocks (λ _. [])) f
          (new_weak_checksum (take (suc k) rest)) rest pending ops
        ≡ some (greedy strong_checksum (suc k) blocks 0 rest pending ops)

  advance-greedy :
      (f : ℕ)
      → Scans f
      → (rest pending : Bytes) (ops : List DeltaOp) → All IsByte rest
      → length rest ≤ f
      → advance strong_checksum
          (suc k)
          blocks
          (slide strong_checksum (suc k) blocks (build_index 0 blocks (λ _. [])) f)
          rest
          pending
          ops
        ≡ some (greedy strong_checksum (suc k) blocks 0 rest pending ops)
  unfolding Scans advance
  advance-greedy f scans [] pending ops hb hf = unfold greedy in refl
  advance-greedy f scans (c ∷ rest) pending ops hb hf =
      elim (Bool-cases (ltb (length (c ∷ rest)) (suc k))) [
        | inl short ↦ rw short (
            ap some (
              sym (
                greedy-short strong_checksum (suc k) blocks (c ∷ rest) pending ops
                  (ltb→lt _ _ short))))
        | inr fits ↦ rw fits (scans (c ∷ rest) pending ops hb (not_ltb _ _ fits) hf)
      ]

  -- A byte that no block matches, with the window that follows it.
  literal_step-greedy :
      (f c : ℕ)
      → Scans f
      → (rest pending : Bytes) (ops : List DeltaOp) → All IsByte (c ∷ rest)
      → length rest ≤ f
      → literal_step strong_checksum
          (suc k)
          blocks
          (slide strong_checksum (suc k) blocks (build_index 0 blocks (λ _. [])) f)
          (new_weak_checksum (take (suc k) (c ∷ rest)))
          (c ∷ rest)
          pending
          ops
        ≡ some (greedy strong_checksum (suc k) blocks 0 rest (pending ++ (c ∷ [])) ops)
  unfolding literal_step
  literal_step-greedy f c scans rest pending ops (hc, hb) hf =
      elim (Bool-cases (ltb (length rest) (suc k))) [
        | inl short ↦ rw short (advance-greedy f scans rest (pending ++ (c ∷ [])) ops hb hf)
        | inr fits ↦
            let e : suc k - 1 ≡ k = omega arith in
            rw
              (fits, e, roll_window k c rest hc (omega (arith, not_ltb (length rest) (suc k) fits)))
              (unfold Scans in scans rest (pending ++ (c ∷ [])) ops hb (not_ltb _ _ fits) hf)
      ]

  slide-greedy : (f : ℕ) → Scans f
  unfolding Scans
  slide-greedy zero rest pending ops hb hk hf = absurd (omega arith)
  slide-greedy (suc f) [] pending ops hb hk hf = absurd (omega arith)
  slide-greedy (suc f) (c ∷ rest) pending ops hb hk hf =
      elim (Option-cases (match_front strong_checksum (suc k) blocks (c ∷ rest))) [
        | inl miss ↦
            slide_miss _ f _ (c ∷ rest) pending ops (try_match-match_front (c ∷ rest) hk ∙ miss)
            ∙ literal_step-greedy f c (slide-greedy f) rest pending ops hb (omega arith)
            ∙ ap some (sym (greedy_miss strong_checksum (suc k) blocks c rest pending ops miss))
        | inr (idx, hit) ↦
            slide_hit _ f idx _ (c ∷ rest) pending ops (try_match-match_front (c ∷ rest) hk ∙ hit)
            ∙ advance-greedy f (slide-greedy f) (drop (suc k) (c ∷ rest)) [] _
                (All-drop IsByte (suc k) (c ∷ rest) hb) (omega (arith, length-drop k rest))
            ∙ ap some (
                sym (
                  greedy_hit strong_checksum (suc k) blocks c rest pending ops idx (omega arith)
                    hit))
      ]

pub effective_block_size_positive : (b : ℤ) → (k : ℕ) × (effective_block_size b ≡ suc k)
unfolding effective_block_size
effective_block_size_positive (pos zero) = (699, refl)
effective_block_size_positive (pos (suc k)) = (k, refl)
effective_block_size_positive (negsuc n) = (699, refl)

-- `GenerateDelta`, with its rolling checksum, its index of weak sums and its two loops, always
-- ends, and gives the greedy delta: at each position the first block that has both checksums of
-- the window, and otherwise a literal byte. `new_data` holds bytes.
pub generate_delta-greedy :
    (strong_checksum : Bytes → Bytes) (sig : Signature) (new_data : Bytes)
    → All IsByte new_data
    → generate_delta strong_checksum sig new_data
      ≡ some
          (greedy strong_checksum (effective_block_size sig.block_size) sig.blocks 0 new_data [] [])
unfolding generate_delta
generate_delta-greedy strong_checksum sig new_data h =
    let (k, e) = effective_block_size_positive sig.block_size in
    rw e (
      advance-greedy strong_checksum k sig.blocks (length new_data)
        (slide-greedy strong_checksum k sig.blocks (length new_data)) new_data [] [] h
        (omega arith))
