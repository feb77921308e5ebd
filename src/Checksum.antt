-- ===== src/Checksum.antt =====
-- internal/sync/checksum.go: the rolling weak checksum. Go's uint32 arithmetic wraps at 2 ^ 32,
-- and every operation below keeps that wrap. The strong checksum (MD5) is a parameter where it is
-- used.
pub mod Sums
pub mod Roll
mod Tests
use grsync.Base.{ℕ, ◌+◌, ◌-◌, ◌*◌, ◌%◌, ◌^◌, List, [], ◌∷◌, Bytes, length}

abbrev pub rolling_checksum_modulus : ℕ
rolling_checksum_modulus = 65536

abbrev pub u32 : ℕ → ℕ
u32 n = n % 2 ^ 32

pub record WeakChecksum : Type 0 where
  pub a : ℕ
  pub b : ℕ
  pub length : ℕ

-- The loop of `newWeakChecksum`: `left` is `n - uint32(i)`, `a` and `b` are the accumulators. Its
-- `n` is `uint32(len(window))`, so the subtraction wraps as well.
pub weak_loop : ℕ → ℕ → ℕ → ℕ → Bytes → WeakChecksum
weak_loop n i a b [] = record {
  a = a % rolling_checksum_modulus;
  b = b % rolling_checksum_modulus;
  length = n;
}
weak_loop n i a b (c ∷ window) =
    weak_loop n (i + 1) (u32 (a + c)) (u32 (b + u32 (u32 (n + 2 ^ 32 - u32 i) * c))) window

unfoldable pub new_weak_checksum : Bytes → WeakChecksum
unfolding weak_loop
new_weak_checksum window = weak_loop (u32 (length window)) 0 0 0 window

unfoldable pub sum : WeakChecksum → ℕ
sum w = u32 (w.a + u32 (w.b * rolling_checksum_modulus))

-- `out` leaves at the window's start, `entering` enters at its end.
unfoldable pub roll : WeakChecksum → ℕ → ℕ → WeakChecksum
roll w out entering =
    let a = u32 (w.a + 2 ^ 32 - out + entering) % rolling_checksum_modulus in
    record {
      a = a;
      b = u32 (w.b + 2 ^ 32 - u32 (w.length * out) + a) % rolling_checksum_modulus;
      length = w.length;
    }
