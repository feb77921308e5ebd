-- ===== src/Blocks.antt =====
-- internal/sync/blocks.go and internal/sync/signature.go: a file as fixed-size blocks, and the
-- signature that the receiver sends. A file is the list of its bytes. `strong` stands for
-- crypto/md5.
pub mod Split
mod Tests
use grsync.Base.{ℕ, zero, suc, List, [], ◌∷◌, map, Bytes, length, take, drop}
use grsync.Base.Int.{ℤ, pos}
use grsync.Checksum.{new_weak_checksum, sum}

abbrev pub default_block_size : ℤ
default_block_size = pos 700

-- The loop of `splitBlocks` at `start`; the list is `data[start:]`, and the first argument bounds
-- the rounds.
unfoldable pub split_loop : ℕ → ℕ → Bytes → List Bytes
split_loop zero block_size rest = []
split_loop (suc f) block_size [] = []
split_loop (suc f) block_size (c ∷ rest) =
    take block_size (c ∷ rest) ∷ split_loop f block_size (drop block_size (c ∷ rest))

-- `blockSize <= 0` gives no blocks. Each round takes a byte at least.
unfoldable pub split_blocks : Bytes → ℤ → List Bytes
unfolding split_loop
split_blocks data_bytes (pos (suc k)) = split_loop (length data_bytes) (suc k) data_bytes
split_blocks data_bytes _ = []

pub record BlockSignature : Type 0 where
  pub weak : ℕ
  pub strong : Bytes

pub record Signature : Type 0 where
  pub block_size : ℤ
  pub blocks : List BlockSignature

module _ (strong_checksum : Bytes → Bytes) where
  unfoldable pub block_signature : Bytes → BlockSignature
  block_signature block = record {
    weak = sum (new_weak_checksum block);
    strong = strong_checksum block;
  }

  unfoldable pub generate_signature_with_block_size : Bytes → ℤ → Signature
  generate_signature_with_block_size data_bytes block_size = record {
    block_size = block_size;
    blocks = map block_signature (split_blocks data_bytes block_size);
  }

  unfoldable pub generate_signature : Bytes → Signature
  unfolding generate_signature_with_block_size
  generate_signature data_bytes = generate_signature_with_block_size data_bytes default_block_size
