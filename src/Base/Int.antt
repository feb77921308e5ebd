-- ===== src/Base/Int.antt =====
-- Go's `int` on a 64-bit machine, as a signed number; `negsuc n` is -(n + 1).
use Prim.Native.Nat.{ℕ, ◌+◌, ◌*◌, ◌-◌, ◌%◌, ◌^◌, ◌≤◌, ◌<◌}
use mathlib.Core.Bool.{Bool, true, false}
use mathlib.Core.Path.{◌≡◌, refl}
use mathlib.Core.Logic.{◌⊎◌, inl, inr}
use native.Mathlib.Omega.{arith}
use grsync.Base.Tests.{ltb, if◌then◌else◌}

pub data ℤ : Type 0 where
  pos : ℕ → ℤ
  negsuc : ℕ → ℤ

-- The signed value of a sum or product of naturals in 64-bit arithmetic: it wraps at 2^63.
unfoldable pub wrap_int : ℕ → ℤ
wrap_int n = let w = n % 2 ^ 64 in if ltb w (2 ^ 63) then pos w else negsuc (2 ^ 64 - w - 1)

-- Two's complement.
unfoldable pub to_word : ℤ → ℕ
to_word (pos n) = n
to_word (negsuc n) = 2 ^ 64 - 1 - n

unfoldable pub add_int : ℤ → ℤ → ℤ
unfolding wrap_int to_word
add_int a b = wrap_int (to_word a + to_word b)

unfoldable pub mul_int : ℤ → ℤ → ℤ
unfolding wrap_int to_word
mul_int a b = wrap_int (to_word a * to_word b)

unfoldable pub sub_int : ℤ → ℤ → ℤ
unfolding wrap_int to_word
sub_int a b = wrap_int (to_word a + 2 ^ 64 - to_word b)

unfoldable pub lt_int : ℤ → ℤ → Bool
lt_int (pos a) (pos b) = ltb a b
lt_int (pos a) (negsuc b) = false
lt_int (negsuc a) (pos b) = true
lt_int (negsuc a) (negsuc b) = ltb b a

pub wrap_int-small : (n : ℕ) → n < 2 ^ 63 → wrap_int n ≡ pos n
unfolding wrap_int
wrap_int-small n h = ground arith

pub wrap_int-upper : (n : ℕ) → 2 ^ 63 ≤ n → n < 2 ^ 64 → wrap_int n ≡ negsuc (2 ^ 64 - n - 1)
unfolding wrap_int
wrap_int-upper n h k = ground arith

pub ℤ-cases : (z : ℤ) → ((n : ℕ) × (z ≡ pos n)) ⊎ ((n : ℕ) × (z ≡ negsuc n))
ℤ-cases (pos n) = inl (n, refl)
ℤ-cases (negsuc n) = inr (n, refl)

pub add_int-small : (a b : ℕ) → a + b < 2 ^ 63 → add_int (pos a) (pos b) ≡ pos (a + b)
unfolding add_int
add_int-small a b h = wrap_int-small (a + b) h

pub sub_int-small : (a b : ℕ) → b ≤ a → a < 2 ^ 63 → sub_int (pos a) (pos b) ≡ pos (a - b)
unfolding sub_int wrap_int
sub_int-small a b h k = ground arith
