-- ===== src/Delta/Unchanged.antt =====
-- What the delta of an unchanged file sends.
use grsync.Base.{
  some_injective, ℕ, zero, suc, ◌+◌, ◌*◌, ◌%◌, ◌≤◌, ◌<◌, ◌≡◌, refl, sym, ap, ◌∙◌, arith, inl, inr,
}
use grsync.Base.{some, List, [], ◌∷◌, ◌++◌, map, Bytes, IsByte, All, length, take, drop, get_elem?}
use grsync.Base.{
  ltb, ◌==◌, ◌&&◌, Bool-cases, same_bytes, same_bytes_refl, not_ltb, true, lt→ltb, ltb→lt,
  length-drop, drop-drop, ltb-false,
}
use grsync.Base.Int.{pos}
use grsync.Blocks.{
  BlockSignature, block_signature, split_blocks, generate_signature_with_block_size,
}
use grsync.Blocks.Split.{split_blocks-block_at}
use grsync.Delta.{DeltaOp, copy_op, data_op, flush_pending, generate_delta, effective_block_size}
use grsync.Delta.Greedy.{find_block, match_front, greedy, greedy_hit, greedy-short}
use grsync.Delta.Scan.{generate_delta-greedy}
use native.Mathlib.Nat.{mod-eq_of_lt, mod-eq-sub-mod}

-- The bytes that a delta sends as they are.
unfoldable pub literal_bytes : List DeltaOp → ℕ
literal_bytes [] = 0
literal_bytes (copy_op idx ∷ ops) = literal_bytes ops
literal_bytes (data_op bytes ∷ ops) = length bytes + literal_bytes ops

pub literal_bytes-append :
    (xs ys : List DeltaOp) → literal_bytes (xs ++ ys) ≡ literal_bytes xs + literal_bytes ys
unfolding literal_bytes
literal_bytes-append [] ys = omega arith
literal_bytes-append (copy_op idx ∷ xs) ys = literal_bytes-append xs ys
literal_bytes-append (data_op b ∷ xs) ys = omega (arith, literal_bytes-append xs ys)

literal_bytes-snoc_copy :
    (ops : List DeltaOp) (idx : ℕ)
    → literal_bytes (ops ++ (copy_op (pos idx) ∷ [])) ≡ literal_bytes ops
literal_bytes-snoc_copy ops idx =
    literal_bytes-append ops (copy_op (pos idx) ∷ []) ∙ unfold literal_bytes in omega arith

literal_bytes-flush_pending :
    (pending : Bytes) (ops : List DeltaOp)
    → literal_bytes (flush_pending pending ops) ≡ literal_bytes ops + length pending
unfolding flush_pending
literal_bytes-flush_pending [] ops = omega arith
literal_bytes-flush_pending (c ∷ pending) ops =
    literal_bytes-append ops (data_op (c ∷ pending) ∷ []) ∙ unfold literal_bytes in omega arith

same_test : (b : BlockSignature) → ((b.weak == b.weak) && same_bytes b.strong b.strong) ≡ true
same_test b = ground (arith, same_bytes_refl b.strong)

-- A block that is in the list is found, itself or one before it with the same checksums.
find_block_complete :
    (i : ℕ) (blocks : List BlockSignature) (j : ℕ) (b : BlockSignature)
    → get_elem? blocks j ≡ some b
    → (idx : ℕ) × (find_block i blocks b.weak b.strong ≡ some idx)
unfolding find_block
find_block_complete i [] j b h = absurd (cc h)
find_block_complete i (x ∷ blocks) zero b h =
    let e : x ≡ b = some_injective h in (i, rw e (rw (same_test b)))
find_block_complete i (x ∷ blocks) (suc j) b h =
    elim (Bool-cases ((b.weak == x.weak) && same_bytes x.strong b.strong)) [
      | inl hit ↦ (i, rw hit)
      | inr miss ↦
          let (idx, found) = find_block_complete (i + 1) blocks j b h in (idx, rw miss found)
    ]

get_elem?-map-some :
    {A B : Type 0} (f : A → B) (xs : List A) (i : ℕ) {x : A}
    → get_elem? xs i ≡ some x
    → get_elem? (map f xs) i ≡ some (f x)
get_elem?-map-some f [] i h = absurd (cc h)
get_elem?-map-some f (y ∷ xs) zero h = cc h
get_elem?-map-some f (y ∷ xs) (suc i) h = get_elem?-map-some f xs i h

module _ (strong_checksum : Bytes → Bytes) (old : Bytes) (k : ℕ) where
  abbrev own_blocks : List BlockSignature
  own_blocks = map (block_signature strong_checksum) (split_blocks old (pos (suc k)))

  -- At a block boundary of the old file itself, with a whole block left, some block matches.
  match_front-own :
      (i : ℕ)
      → i * suc k + suc k ≤ length old
      → (idx : ℕ) × (match_front strong_checksum (suc k) own_blocks (drop (i * suc k) old)
          ≡ some idx)
  unfolding match_front
  match_front-own i h =
      let at_i : get_elem? (split_blocks old (pos (suc k))) i
          ≡ some (take (suc k) (drop (i * suc k) old)) =
        split_blocks-block_at old k i ∙ rw (lt→ltb (i * suc k) (length old) (omega arith)) in
      let (idx, found) =
        find_block_complete 0 own_blocks i
          (block_signature strong_checksum (take (suc k) (drop (i * suc k) old)))
          (get_elem?-map-some (block_signature strong_checksum) (split_blocks old (pos (suc k))) i
            at_i) in
      (
        idx,
        rw
            (ltb-false (length (drop (i * suc k) old)) (suc k)
              (omega (arith, length-drop (i * suc k) old)))
            (unfold block_signature in found),
      )

  greedy_hit_long :
      (rest : Bytes) (ops : List DeltaOp) (idx : ℕ)
      → suc k ≤ length rest
      → match_front strong_checksum (suc k) own_blocks rest ≡ some idx
      → greedy strong_checksum (suc k) own_blocks 0 rest [] ops
        ≡ greedy strong_checksum
            (suc k)
            own_blocks
            0
            (drop (suc k) rest)
            []
            (ops ++ (copy_op (pos idx) ∷ []))
  greedy_hit_long [] ops idx h hit = absurd (omega arith)
  greedy_hit_long (c ∷ rest) ops idx h hit =
      greedy_hit strong_checksum (suc k) own_blocks c rest [] ops idx (omega arith) hit
      ∙ unfold flush_pending in refl

  literal_bytes-short :
      (rest : Bytes) (ops : List DeltaOp)
      → length rest < suc k
      → literal_bytes (greedy strong_checksum (suc k) own_blocks 0 rest [] ops)
        ≡ literal_bytes ops + length rest % suc k
  literal_bytes-short rest ops h =
      ap literal_bytes (greedy-short strong_checksum (suc k) own_blocks rest [] ops h)
      ∙ literal_bytes-flush_pending rest ops
      ∙ ap (λ (t : ℕ). literal_bytes ops + t) (sym (mod-eq_of_lt h))

  -- `n` bounds the bytes that are left from block `i` on.
  literal_bytes-greedy :
      (n i : ℕ) (ops : List DeltaOp)
      → length old ≤ n + i * suc k
      → literal_bytes (greedy strong_checksum (suc k) own_blocks 0 (drop (i * suc k) old) [] ops)
        ≡ literal_bytes ops + length (drop (i * suc k) old) % suc k
  literal_bytes-greedy zero i ops hn =
      literal_bytes-short (drop (i * suc k) old) ops (omega (arith, length-drop (i * suc k) old))
  literal_bytes-greedy (suc n) i ops hn =
      elim (Bool-cases (ltb (length (drop (i * suc k) old)) (suc k))) [
        | inl short ↦ literal_bytes-short (drop (i * suc k) old) ops (ltb→lt _ _ short)
        | inr long ↦
            let fits : suc k ≤ length (drop (i * suc k) old) = not_ltb _ _ long in
            let (idx, hit) = match_front-own i (omega (arith, length-drop (i * suc k) old)) in
            let next : drop (suc k) (drop (i * suc k) old) ≡ drop (suc i * suc k) old =
              drop-drop (suc k) (i * suc k) old ∙ ap (λ (t : ℕ). drop t old) (omega arith) in
            rw (
              greedy_hit_long (drop (i * suc k) old) ops idx fits hit,
              next,
              literal_bytes-greedy n (suc i) (ops ++ (copy_op (pos idx) ∷ [])) (omega arith),
              literal_bytes-snoc_copy ops idx,
              ← next,
              length-drop (suc k) (drop (i * suc k) old),
              mod-eq-sub-mod fits,
            )
      ]

-- A file that has not changed is sent as copies, but for a last block shorter than the block size:
-- the delta of `old` against its own signature exists, and its literal bytes are `length old`
-- modulo the block size, for every positive block size and a file of bytes below 256. No property
-- of the strong checksum is assumed.
pub literal_bytes_unchanged :
    (strong_checksum : Bytes → Bytes) (old : Bytes) (k : ℕ)
    → All IsByte old
    → let sig = generate_signature_with_block_size strong_checksum old (pos (suc k)) in
      (ops : List DeltaOp) × (generate_delta strong_checksum sig old ≡ some ops)
      × (literal_bytes ops ≡ length old % suc k)
unfolding generate_signature_with_block_size effective_block_size literal_bytes
literal_bytes_unchanged strong_checksum old k bytes = (
  _,
  generate_delta-greedy strong_checksum _ old bytes,
  (let e : 0 * suc k ≡ 0 = omega arith in
      rw e at (literal_bytes-greedy strong_checksum old k (length old) 0 [] (omega arith))
      ∙ omega arith),
)
