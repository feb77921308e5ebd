-- ===== src/Blocks/Tests.antt =====
-- Runs of `splitBlocks`, and its theorems at a concrete file.
use grsync.Base.{◌≡◌, refl, [], ◌∷◌, codes, get_elem?}
use grsync.Base.Int.{pos, negsuc}
use grsync.Blocks.{split_blocks}
use grsync.Blocks.Split.{block_at, split_blocks-block_at}

split_seven : split_blocks (codes "abcdefg") (pos 3) ≡ codes "abc" ∷ codes "def" ∷ codes "g" ∷ []
unfolding split_blocks
split_seven = refl

split_no_size : split_blocks (codes "abc") (negsuc 0) ≡ []
unfolding split_blocks
split_no_size = refl

split_blocks-block_at_example :
    get_elem? (split_blocks (codes "abcdefg") (pos 3)) 2 ≡ block_at 3 (codes "abcdefg") 2
split_blocks-block_at_example = split_blocks-block_at (codes "abcdefg") 2 2
