-- ===== src/Compress.antt =====
-- internal/pipeline/compress.go: when and how a file's literal bytes are compressed. `Zlib` stands
-- for compress/zlib.
pub mod Levels
pub mod Suffix
pub mod Pack
mod Tests
use grsync.Base.{ℕ, zero, suc, ◌+◌, ◌<◌, ◌≡◌, Bool, true, false, not, ◌&&◌, Option, none, some}
use grsync.Base.{
  List, [], ◌∷◌, map, Bytes, length, ltb, leb, ◌==◌, if◌then◌else◌, same_bytes, codes, ◌++◌,
  split_on, to_lower,
}
use grsync.Base.Int.{ℤ, pos, negsuc}
use mathlib.Core.List.{reverse}

abbrev pub default_compress_level : ℕ
default_compress_level = 6

-- 0 stays, -1 is the default level, and any other level is brought into 1 to 9.
unfoldable pub clamp_compress_level : ℤ → ℕ
clamp_compress_level (pos zero) = 0
clamp_compress_level (negsuc zero) = default_compress_level
clamp_compress_level (negsuc (suc n)) = 1
clamp_compress_level (pos (suc n)) = if ltb 9 (suc n) then 9 else suc n

pub record CompressOptions : Type 0 where
  pub enabled : Bool
  pub level : ℕ
  pub skip_suffixes : List Bytes

unfoldable pub lower_parts : List Bytes → List Bytes
lower_parts [] = []
lower_parts ([] ∷ parts) = lower_parts parts
lower_parts ((c ∷ part) ∷ parts) = to_lower (c ∷ part) ∷ lower_parts parts

-- An empty list means that nothing is skipped.
unfoldable pub parse_skip_compress_list : Bytes → List Bytes
unfolding lower_parts split_on to_lower
parse_skip_compress_list [] = []
parse_skip_compress_list (c ∷ list) = lower_parts (split_on b'/' (c ∷ list))

abbrev pub default_skip_compress_suffixes : List Bytes
unfolding split_on
default_skip_compress_suffixes =
    split_on b'/' (codes "3g2/3gp/7z/aac/ace/apk/avi/bz2/deb/dmg/ear/f4v/flac/flv/gpg/gz/iso/jar")
    ++ split_on b'/' (codes "jpeg/jpg/lrz/lz/lz4/lzma/lzo/m1a/m1v/m2a/m2ts/m2v/m4a/m4b/m4p/m4r/m4v")
    ++ split_on b'/' (codes "mka/mkv/mov/mp1/mp2/mp3/mp4/mpa/mpeg/mpg/mpv/mts/odb/odf/odg/odi/odm")
    ++ split_on b'/' (codes "odp/ods/odt/oga/ogg/ogm/ogv/ogx/opus/otg/oth/otp/ots/ott/oxt/png/qt")
    ++ split_on b'/' (codes "rar/rpm/rz/rzip/spx/squashfs/sxc/sxd/sxg/sxm/sxw/sz/tbz/tbz2/tgz/tlz")
    ++ split_on b'/' (codes "ts/txz/tzo/vob/war/webm/webp/xz/z/zip/zst")

-- `filepath.Ext` reads from the end to a dot or a slash; `ext` is what it has passed.
unfoldable pub ext_loop : Bytes → Bytes → Bytes
ext_loop [] ext = []
ext_loop (c ∷ before) ext =
    if c == b'/' then [] else if c == b'.' then c ∷ ext else ext_loop before (c ∷ ext)

unfoldable pub has_suffix_in : Bytes → List Bytes → Bool
unfolding same_bytes
has_suffix_in suffix [] = false
has_suffix_in suffix (s ∷ suffixes) =
    if same_bytes s suffix then true else has_suffix_in suffix suffixes

-- The extension begins with its dot, which `TrimPrefix` takes off.
unfoldable pub in_suffixes : Bytes → List Bytes → Bool
unfolding has_suffix_in to_lower
in_suffixes [] suffixes = false
in_suffixes (dot ∷ ext) suffixes = has_suffix_in (to_lower ext) suffixes

unfoldable pub skip_compress_suffix : Bytes → List Bytes → Bool
unfolding ext_loop in_suffixes
skip_compress_suffix path suffixes = in_suffixes (ext_loop (reverse path) []) suffixes

-- compress/zlib: what a writer at a level makes of some bytes and what a reader makes of those;
-- `none` is an error.
pub record Zlib : Type 0 where
  pub deflate : ℕ → Bytes → Option Bytes
  pub inflate : Bytes → Option Bytes

-- A zlib reader gives back what was written.
abbrev pub Inflates : Zlib → Type 0
Inflates z =
    (level : ℕ) (bytes packed : Bytes)
    → z.deflate level bytes ≡ some packed
    → z.inflate packed ≡ some bytes

-- `none` is `ok == false`: an error, or a result that is no smaller.
unfoldable pub compress_literal : Zlib → ℕ → Bytes → Option Bytes
compress_literal z level bytes = elim (z.deflate level bytes) [
  | none ↦ none
  | some packed ↦ if leb (length bytes) (length packed) then none else some packed
]
