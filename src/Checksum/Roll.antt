-- ===== src/Checksum/Roll.antt =====
-- The rolling step against a checksum computed from scratch.
use grsync.Base.{ℕ, suc, ◌+◌, ◌*◌, ◌/◌, ◌%◌, ◌^◌, ◌<◌, ◌≡◌, arith}
use grsync.Base.{[], ◌∷◌, ◌++◌, Bytes, IsByte, length, length-append}
use grsync.Checksum.{new_weak_checksum, sum, roll}
use grsync.Checksum.Sums.{
  byte_sum, weighted_sum, byte_sum-append, weighted_sum-snoc, wrap_factor,
  new_weak_checksum-closed_form,
}

-- Rolling the checksum of a window `out ∷ rest` by the byte `entering` gives the checksum of
-- `rest ++ entering ∷ []`, for every window length, when the byte that leaves is below 256.
pub roll-new_weak_checksum :
    (out : ℕ) (rest : Bytes) (entering : ℕ)
    → IsByte out
    → roll (new_weak_checksum (out ∷ rest)) out entering
      ≡ new_weak_checksum (rest ++ (entering ∷ []))
unfolding roll byte_sum weighted_sum
roll-new_weak_checksum out rest entering h =
    rw (new_weak_checksum-closed_form, new_weak_checksum-closed_form)
      (ground (
        arith,
        weighted_sum-snoc rest entering,
        byte_sum-append rest (entering ∷ []),
        length-append rest (entering ∷ []),
        wrap_factor (suc (length rest)) out,
      ))

-- The combined value fits 32 bits without wrapping, and gives both accumulators back.
pub sum_parts :
    (window : Bytes)
    → let w = new_weak_checksum window in
      (sum w ≡ w.a + w.b * 65536) × (sum w % 65536 ≡ w.a) × (sum w / 65536 ≡ w.b) × (sum w < 2 ^ 32)
unfolding sum
sum_parts window = rw new_weak_checksum-closed_form (omega arith)
