-- ===== src/Receiver/Counts.antt =====
-- The byte counts of a delta that was applied.
use grsync.Base.{
  ℕ, zero, suc, ◌+◌, ◌-◌, ◌*◌, ◌^◌, ◌≤◌, ◌<◌, ◌≡◌, refl, ap, arith, List, [], ◌∷◌, ◌++◌, Bytes,
  length, drop, ltb, leb, not_ltb, length-append, length-take, length-drop,
}
use grsync.Base.{ok, bind-eq-ok, ok_injective, Bool-cases, inl, inr, if◌then◌else◌}
use grsync.Base.Int.{
  ℤ, pos, negsuc, wrap_int, add_int-small, sub_int-small, add_int, mul_int, sub_int, lt_int,
  to_word, ℤ-cases,
}
use grsync.Delta.{DeltaOp, copy_op, data_op, slice, copy_slice, apply_copy, apply_loop, apply_delta}
use grsync.Blocks.{Signature}
use grsync.Wire.{concat_literals}
use grsync.Receiver.{matched_bytes, count_loop, delta_byte_counts}

slice_inv :
    (old : Bytes) (start end : ℕ) (block : Bytes)
    → slice old (pos start) (pos end) ≡ ok block
    → (start ≤ end) × (length block ≡ end - start)
unfolding slice
slice_inv old start end block h = elim (Bool-cases (leb start end)) [
  | inl ordered ↦ elim (Bool-cases (leb end (length old))) [
    | inl inside ↦
        let taken = ok_injective (rw (ordered, inside, slice) at h) in
        rw (← taken)
          (ground (arith, length-take (end - start) (drop start old), length-drop start old))
    | inr outside ↦ absurd (cc (rw (ordered, outside, slice) at h))
  ]
  | inr back ↦ absurd (cc (rw (back, slice) at h))
]

-- A range that is not reversed counts its bytes.
range_count :
    (start cut : ℕ)
    → start ≤ cut
    → cut < 2 ^ 63
    → (if lt_int (pos start) (pos cut) then sub_int (pos cut) (pos start) else pos 0)
      ≡ pos (cut - start)
unfolding lt_int
range_count start cut h k = elim (Bool-cases (ltb start cut)) [
  | inl more ↦ rw more (sub_int-small cut start h k)
  | inr same ↦ rw same (ap pos (let le = not_ltb start cut same in omega (arith, le)))
]

copy_slice_inv :
    (i : ℕ) (old : Bytes) (size : ℕ) (start : ℤ) (block : Bytes)
    → length old < 2 ^ 63
    → copy_slice i old size start ≡ ok block
    → (let end = add_int start (pos size) in
        let cut = if lt_int (pos (length old)) end then pos (length old) else end in
        if lt_int start cut then sub_int cut start else pos 0)
      ≡ pos (length block)
unfolding copy_slice add_int to_word sub_int lt_int
copy_slice_inv i old size (negsuc start) block k h = absurd (cc h)
copy_slice_inv i old size (pos start) block k h = elim (Bool-cases (leb (length old) start)) [
  | inl outside ↦ absurd (cc (rw (outside, copy_slice) at h))
  | inr inside ↦ elim (ℤ-cases (wrap_int (start + size))) [
    | inr (end, whole) ↦ absurd (cc (rw (inside, whole, copy_slice) at h))
    | inl (end, whole) ↦
        let (ordered, size_eq) =
          slice_inv old start (if ltb (length old) end then length old else end) block
            (rw (inside, whole, copy_slice) at h) in
        elim (Bool-cases (ltb (length old) end)) [
          | inl cut ↦
              rw (whole, cut, size_eq, cut) (range_count start (length old) (rw cut at ordered) k)
          | inr full ↦
              rw (whole, full, size_eq, full)
                (range_count start end (rw full at ordered)
                  (let le = not_ltb (length old) end full in omega (arith, le)))
        ]
  ]
]

apply_copy_inv :
    (i : ℕ) (old : Bytes) (size idx : ℤ) (block : Bytes)
    → length old < 2 ^ 63
    → apply_copy i old size idx ≡ ok block
    → matched_bytes size (length old) idx ≡ pos (length block)
unfolding apply_copy matched_bytes mul_int
apply_copy_inv i old (pos zero) idx block k h = absurd (cc h)
apply_copy_inv i old (negsuc n) idx block k h = absurd (cc h)
apply_copy_inv i old (pos (suc n)) (negsuc idx) block k h = absurd (cc h)
apply_copy_inv i old (pos (suc n)) (pos idx) block k h =
    copy_slice_inv i old (suc n) (wrap_int (idx * suc n)) block k h

apply_loop-grows :
    (i : ℕ) (old : Bytes) (size : ℤ) (ops : List DeltaOp) (out new_data : Bytes)
    → apply_loop i old size ops out ≡ ok new_data
    → length out ≤ length new_data
unfolding apply_loop
apply_loop-grows i old size [] out new_data h = rw (ok_injective h) (omega arith)
apply_loop-grows i old size (copy_op idx ∷ ops) out new_data h =
    let (block, read, more) = bind-eq-ok (apply_copy i old size idx) _ h in
    omega (
      arith,
      apply_loop-grows (i + 1) old size ops (out ++ block) new_data more,
      length-append out block,
    )
apply_loop-grows i old size (data_op b ∷ ops) out new_data h =
    omega (arith, apply_loop-grows (i + 1) old size ops (out ++ b) new_data h, length-append out b)

-- The sums `l` and `m` when the loop has given `out`, and at the end.
count_loop-apply_loop :
    (i : ℕ) (old : Bytes) (size : ℤ) (ops : List DeltaOp) (out new_data : Bytes) (l m : ℕ)
    → length old < 2 ^ 63
    → length new_data < 2 ^ 63
    → apply_loop i old size ops out ≡ ok new_data
    → l + m ≡ length out
    → (m' : ℕ) × (count_loop ops size (length old) (pos l) (pos m)
        ≡ (pos (l + length (concat_literals ops)), pos m'))
      × (l + length (concat_literals ops) + m' ≡ length new_data)
unfolding apply_loop count_loop concat_literals
count_loop-apply_loop i old size [] out new_data l m k n h e =
    let none_left : l + 0 ≡ l = omega arith in
    (
      m,
      rw none_left refl,
      rw (ok_injective h) at (let sum_eq : l + 0 + m ≡ length out = omega arith in sum_eq),
    )
count_loop-apply_loop i old size (copy_op idx ∷ ops) out new_data l m k n h e =
    let (block, read, more) = bind-eq-ok (apply_copy i old size idx) _ h in
    let small = apply_loop-grows (i + 1) old size ops (out ++ block) new_data more in
    let out_eq = length-append out block in
    let (m', counts, sum_eq) =
      count_loop-apply_loop (i + 1) old size ops (out ++ block) new_data l (m + length block) k n
        more (omega arith) in
    (
      m',
      rw (apply_copy_inv i old size idx block k read, add_int-small m (length block) (omega arith))
          counts,
      sum_eq,
    )
count_loop-apply_loop i old size (data_op b ∷ ops) out new_data l m k n h e =
    let small = apply_loop-grows (i + 1) old size ops (out ++ b) new_data h in
    let out_eq = length-append out b in
    let (m', counts, sum_eq) =
      count_loop-apply_loop (i + 1) old size ops (out ++ b) new_data (l + length b) m k n h
        (omega arith) in
    let len = length-append b (concat_literals ops) in
    let same : l + length b + length (concat_literals ops) ≡ l + length (b ++ concat_literals ops) =
      omega arith in
    (m', rw (add_int-small l (length b) (omega arith), ← same) counts, rw (← same) sum_eq)

-- For a delta that `ApplyDelta` applies, the literal bytes that the receiver counts are those of
-- the delta's literals, and with the matched bytes they are as many as the new file has, files
-- being below 2 ^ 63 bytes.
pub delta_byte_counts-apply_delta :
    (old new_data : Bytes) (ops : List DeltaOp) (sig : Signature)
    → length old < 2 ^ 63
    → length new_data < 2 ^ 63
    → apply_delta old ops sig ≡ ok new_data
    → (matched : ℕ) × (delta_byte_counts ops sig.block_size (length old)
        ≡ (pos (length (concat_literals ops)), pos matched))
      × (length (concat_literals ops) + matched ≡ length new_data)
unfolding apply_delta delta_byte_counts
delta_byte_counts-apply_delta old new_data ops sig k n h =
    let from_zero : 0 + length (concat_literals ops) ≡ length (concat_literals ops) = omega arith in
    rw from_zero at
      (count_loop-apply_loop 0 old sig.block_size ops [] new_data 0 0 k n h (omega arith))
