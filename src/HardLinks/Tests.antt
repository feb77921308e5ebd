-- ===== src/HardLinks/Tests.antt =====
-- A run of the detection of hard links, and the theorem at it.
use mathlib.Core.List.Memᴰ
use grsync.Base.{
  ℕ, ◌≡◌, ◌≢◌, ◌↔◌, refl, ap, Bool, true, false, Option, none, some, List, [], ◌∷◌, Bytes, codes,
  if◌then◌else◌, ok, err, same_bytes,
}
use grsync.Base.Int.{pos}
use grsync.Entry.{FileEntry, is_symlink}
use grsync.HardLinks.{HardLinkKey, detect_hard_links}
use grsync.HardLinks.Linked.{IsTogether, detect_hard_links_iff}

abbrev entry : Bytes → Bool → FileEntry
entry name is_dir = record {
  path = name;
  size = pos 0;
  mod_time = pos 0;
  mode = 420;
  uid = 0;
  gid = 0;
  ownership_available = true;
  link_target = [];
  is_dir = is_dir;
}

abbrev key : ℕ → HardLinkKey
key ino = record { dev = 1; ino = ino }

-- The lone file `c` has an inode of its own; `b`, `a` and all other paths share one.
abbrev lookup : Bytes → Option (Option HardLinkKey)
lookup path = if same_bytes path (codes "c") then some (some (key 8)) else some (some (key 7))

abbrev entries : List FileEntry
entries =
    entry (codes "d") true
    ∷ entry (codes "b") false
    ∷ entry (codes "c") false
    ∷ entry (codes "a") false
    ∷ []

detect_run : detect_hard_links lookup entries ≡ ok ((codes "a" ∷ codes "b" ∷ []) ∷ [])
unfolding detect_hard_links same_bytes
detect_run = refl

detect_missing : detect_hard_links (λ path. none) entries ≡ err (codes "b")
unfolding detect_hard_links
detect_missing = refl

apart : codes "b" ≢ codes "a"
unfolding same_bytes
apart same = absurd (cc (differ))
  where
    differ : true ≡ false
    differ = ap (same_bytes (codes "b")) same

detect_hard_links_iff_example :
    IsTogether lookup (codes "b") (codes "a") ((codes "a" ∷ codes "b" ∷ []) ∷ []) ↔ (key 7 ≡ key 7)
unfolding is_symlink same_bytes
detect_hard_links_iff_example =
    detect_hard_links_iff lookup entries (entry (codes "b") false) (entry (codes "a") false) (key 7)
      (key 7) ((codes "a" ∷ codes "b" ∷ []) ∷ []) detect_run (Memᴰ.tail (Memᴰ.head refl))
      (Memᴰ.tail (Memᴰ.tail (Memᴰ.tail (Memᴰ.head refl)))) apart
      (record { regular = refl; found = refl }) (record { regular = refl; found = refl })
