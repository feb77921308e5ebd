-- ===== src/Entry.antt =====
-- internal/sync/walk.go: FileEntry; internal/sync/attributes.go: AttrOptions. Times are in
-- nanoseconds; a mode is Go's `fs.FileMode`, with the nine permission bits at its low end.
use grsync.Base.{ℕ, ◌/◌, ◌%◌, ◌^◌, Bool, Bytes, ◌==◌}
use grsync.Base.Int.{ℤ}

pub record FileEntry : Type 0 where
  pub path : Bytes
  pub size : ℤ
  pub mod_time : ℤ
  pub mode : ℕ
  pub uid : ℕ
  pub gid : ℕ
  pub ownership_available : Bool
  pub link_target : Bytes
  pub is_dir : Bool

-- `entry.Mode&fs.ModeSymlink != 0`, bit 27.
unfoldable pub is_symlink : FileEntry → Bool
is_symlink entry = entry.mode / 2 ^ 27 % 2 == 1

-- `Mode.Perm()`
unfoldable pub perm : ℕ → ℕ
perm mode = mode % 512

pub record AttrOptions : Type 0 where
  pub perms : Bool
  pub times : Bool
  pub owner : Bool
  pub group : Bool
  pub links : Bool
  pub hard_links : Bool
  pub devices : Bool
