-- ===== src/Glob/Tests.antt =====
-- Runs of the matcher.
use grsync.Base.{◌≡◌, refl, true, false, codes}
use grsync.Glob.{path_match}

star_run : path_match (codes "*.l[a-o]g") (codes "a.b.log") ≡ true
unfolding path_match
star_run = refl

negated_run : path_match (codes "x[^0-9]?") (codes "x7y") ≡ false
unfolding path_match
negated_run = refl

escaped_run : path_match (codes "a\\*") (codes "a*") ≡ true
unfolding path_match
escaped_run = refl

malformed_run : path_match (codes "a[]b") (codes "a]b") ≡ false
unfolding path_match
malformed_run = refl
