-- ===== src/Compress/Tests.antt =====
-- Runs of the compression options, and their theorems at concrete arguments.
use grsync.Base.{◌≡◌, refl, true, false, [], ◌∷◌, codes}
use grsync.Compress.{parse_skip_compress_list, default_skip_compress_suffixes, skip_compress_suffix}

parse_list : parse_skip_compress_list (codes "GZ//jpg/") ≡ codes "gz" ∷ codes "jpg" ∷ []
unfolding parse_skip_compress_list
parse_list = refl

skip_photo : skip_compress_suffix (codes "a.d/b.JPG") (codes "gz" ∷ codes "jpg" ∷ []) ≡ true
unfolding skip_compress_suffix
skip_photo = refl

skip_none : skip_compress_suffix (codes "a.gz/b") (codes "gz" ∷ []) ≡ false
unfolding skip_compress_suffix
skip_none = refl

skip_default : skip_compress_suffix (codes "v/film.MKV") default_skip_compress_suffixes ≡ true
unfolding skip_compress_suffix default_skip_compress_suffixes
skip_default = refl
