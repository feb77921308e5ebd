-- ===== src/Compress/Suffix.antt =====
-- Which paths are sent uncompressed.
use grsync.Base.{ℕ, ◌≡◌, ◌≢◌, refl, ◌∙◌, arith, List, [], ◌∷◌, ◌++◌, Bytes, All, append_assoc}
use grsync.Base.{to_lower, append-nil}
use grsync.Compress.{ext_loop, has_suffix_in, skip_compress_suffix}
use mathlib.Core.List.{reverse, reverse-append}

-- A byte that neither ends a path element nor begins an extension.
abbrev pub IsPlain : ℕ → Type 0
IsPlain c = (c ≢ b'/') × (c ≢ b'.')

ext_loop-plain :
    (ext rest acc : Bytes)
    → All IsPlain ext
    → ext_loop (reverse ext ++ rest) acc ≡ ext_loop rest (ext ++ acc)
unfolding ext_loop
ext_loop-plain [] rest acc h = refl
ext_loop-plain (c ∷ ext) rest acc (hc, h) =
    rw (reverse-append (c ∷ []) ext, append_assoc (reverse ext) (c ∷ []) rest)
      (ext_loop-plain ext (c ∷ rest) acc h ∙ ground arith)

-- A path that ends in a dot and plain bytes is skipped exactly if those bytes, in lower case, are
-- in the list.
pub skip_compress_suffix_ext :
    (front ext : Bytes) (suffixes : List Bytes)
    → All IsPlain ext
    → skip_compress_suffix (front ++ (b'.' ∷ ext)) suffixes ≡ has_suffix_in (to_lower ext) suffixes
unfolding skip_compress_suffix
skip_compress_suffix_ext front ext suffixes h =
    rw
      (
        reverse-append front (b'.' ∷ ext),
        reverse-append (b'.' ∷ []) ext,
        append_assoc (reverse ext) (b'.' ∷ []) (reverse front),
        ext_loop-plain ext (b'.' ∷ reverse front) [] h,
      )
      (rw append-nil)
