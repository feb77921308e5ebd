-- ===== src/Compress/Levels.antt =====
-- The levels that `ClampCompressLevel` lets through.
use Prim.Native.Nat.{min}
use grsync.Base.{ℕ, zero, suc, ◌≤◌, ◌≡◌, ◌↔◌, arith}
use grsync.Base.Int.{ℤ, pos, negsuc}
use grsync.Compress.{clamp_compress_level}

clamp_nat : (n : ℕ) → clamp_compress_level (pos n) ≡ min n 9
unfolding clamp_compress_level
clamp_nat zero = omega arith
clamp_nat (suc n) = ground arith

-- The clamped level is 0 for the level 0 alone, is never above 9, and of a level that is not
-- negative it is the smaller of the level and 9.
pub clamp_compress_level_range :
    (level : ℤ) (n : ℕ)
    → ((clamp_compress_level level ≡ 0) ↔ (level ≡ pos 0))
      × (clamp_compress_level level ≤ 9)
      × (clamp_compress_level (pos n) ≡ min n 9)
unfolding clamp_compress_level
clamp_compress_level_range (pos zero) n = ground (arith, clamp_nat n)
clamp_compress_level_range (pos (suc m)) n = ground (arith, clamp_nat n)
clamp_compress_level_range (negsuc zero) n = ground (arith, clamp_nat n)
clamp_compress_level_range (negsuc (suc m)) n = ground (arith, clamp_nat n)
