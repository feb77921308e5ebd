-- ===== src/Compress/Pack.antt =====
-- A small compression for the tests: two leading zero bytes are shortened to one byte.
use grsync.Base.{ℕ, zero, suc, refl, Option, none, some, some_injective, [], ◌∷◌, Bytes}
use grsync.Compress.{Zlib, Inflates}

unfoldable pub pack : ℕ → Bytes → Option Bytes
pack level (zero ∷ zero ∷ rest) = some (1 ∷ rest)
pack level (zero ∷ suc n ∷ rest) = some (0 ∷ zero ∷ suc n ∷ rest)
pack level (zero ∷ []) = some (0 ∷ zero ∷ [])
pack level (suc n ∷ rest) = some (0 ∷ suc n ∷ rest)
pack level [] = some (0 ∷ [])

unfoldable pub unpack : Bytes → Option Bytes
unpack [] = none
unpack (zero ∷ rest) = some rest
unpack (suc n ∷ rest) = some (0 ∷ 0 ∷ rest)

abbrev pub zeros : Zlib
zeros = record { deflate = pack; inflate = unpack }

pub zeros-Inflates : Inflates zeros
unfolding pack unpack
zeros-Inflates level (zero ∷ zero ∷ rest) packed h = rw (← some_injective h) refl
zeros-Inflates level (zero ∷ suc n ∷ rest) packed h = rw (← some_injective h) refl
zeros-Inflates level (zero ∷ []) packed h = rw (← some_injective h) refl
zeros-Inflates level (suc n ∷ rest) packed h = rw (← some_injective h) refl
zeros-Inflates level [] packed h = rw (← some_injective h) refl
