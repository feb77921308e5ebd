-- ===== src/Checksum/Sums.antt =====
-- What `newWeakChecksum` computes, without accumulators and without wrapping.
use grsync.Base.{ℕ, ◌+◌, ◌-◌, ◌*◌, ◌%◌, ◌^◌, ◌≡◌, ap, ◌∙◌, arith}
use grsync.Base.{[], ◌∷◌, ◌++◌, Bytes, length, length-append}
use native.Mathlib.Nat.{div-add-mod}
use grsync.Checksum.{WeakChecksum, u32, weak_loop, new_weak_checksum}

-- The sum of the bytes.
unfoldable pub byte_sum : Bytes → ℕ
byte_sum [] = 0
byte_sum (c ∷ window) = c + byte_sum window

-- The sum of the bytes, each weighted by its distance to the window's end.
unfoldable pub weighted_sum : Bytes → ℕ
weighted_sum [] = 0
weighted_sum (c ∷ window) = length (c ∷ window) * c + weighted_sum window

abbrev pub closed_form : Bytes → WeakChecksum
closed_form w = record {
  a = byte_sum w % 65536;
  b = weighted_sum w % 65536;
  length = u32 (length w);
}

-- A factor may be reduced mod 2 ^ 32 before a reduction mod 2 ^ 16.
pub wrap_factor : (n c : ℕ) → n % 2 ^ 32 * c % 65536 ≡ n * c % 65536
wrap_factor n c = omega (arith, ap (λ (t : ℕ). t * c) (div-add-mod n (2 ^ 32)))

pub byte_sum-append : (xs ys : Bytes) → byte_sum (xs ++ ys) ≡ byte_sum xs + byte_sum ys
unfolding byte_sum
byte_sum-append [] ys = omega arith
byte_sum-append (x ∷ xs) ys = omega (arith, byte_sum-append xs ys)

-- A byte at the end of the window raises the weight of all before it by one.
pub weighted_sum-snoc :
    (xs : Bytes) (y : ℕ) → weighted_sum (xs ++ (y ∷ [])) ≡ weighted_sum xs + byte_sum xs + y
unfolding weighted_sum byte_sum
weighted_sum-snoc [] y = omega arith
weighted_sum-snoc (x ∷ xs) y =
    omega (arith, weighted_sum-snoc xs y, ap (λ (t : ℕ). t * x) (length-append xs (y ∷ [])))

-- The weight that the loop uses is the distance to the window's end, wrapped.
weight_wraps :
    (n i m c : ℕ) → n ≡ u32 (i + m) → u32 (n + 2 ^ 32 - u32 i) * c % 65536 ≡ m * c % 65536
weight_wraps n i m c h =
    let e : u32 (n + 2 ^ 32 - u32 i) ≡ u32 m = omega arith in
    ap (λ (t : ℕ). t * c % 65536) e ∙ wrap_factor m c

weak_loop-sums :
    (n i a b : ℕ) (window : Bytes)
    → n ≡ u32 (i + length window)
    → weak_loop n i a b window ≡ record {
      a = (a + byte_sum window) % 65536;
      b = (b + weighted_sum window) % 65536;
      length = n;
    }
unfolding weak_loop byte_sum weighted_sum
weak_loop-sums n i a b [] h = ground arith
weak_loop-sums n i a b (c ∷ window) h =
    weak_loop-sums n (i + 1) _ _ window (omega arith)
    ∙ ground (arith, weight_wraps n i (length (c ∷ window)) c h)

-- The checksum of any window is the pair of its two sums mod 2 ^ 16.
pub new_weak_checksum-closed_form : (window : Bytes) → new_weak_checksum window ≡ closed_form window
unfolding new_weak_checksum
new_weak_checksum-closed_form window =
    weak_loop-sums (u32 (length window)) 0 0 0 window (omega arith) ∙ ground arith
