-- ===== src/HardLinks.antt =====
-- internal/sync/hardlinks.go: DetectHardLinks. `lookup` is what `os.Lstat` and `lookupHardLinkKey`
-- say of a path: `none` is an error, and `some none` a file without a key.
pub mod Members
mod Found
mod Linked
mod Tests
use grsync.Base.{
  ℕ, zero, suc, Bool, true, false, not, ◌&&◌, ◌||◌, Option, none, some, List, [], ◌∷◌, ◌++◌, Bytes,
  length, ltb, ◌==◌, if◌then◌else◌, Result, ok, err, panic, ◌>>=◌,
}
use grsync.Base.Sorting.{le_text, sort_texts}
use grsync.Entry.{FileEntry, is_symlink}

pub record HardLinkKey : Type 0 where
  pub dev : ℕ
  pub ino : ℕ

unfoldable pub same_key : HardLinkKey → HardLinkKey → Bool
same_key k key = k.dev == key.dev && k.ino == key.ino

-- A map from keys to paths. The groups are sorted in the end, so that the order of the keys does
-- not count.
abbrev pub Groups : Type 0
Groups = List (HardLinkKey × List Bytes)

-- `byKey[key] = append(byKey[key], path)`.
unfoldable pub add_path : HardLinkKey → Bytes → Groups → Groups
unfolding same_key
add_path key path [] = (key, path ∷ []) ∷ []
add_path key path ((k, paths) ∷ groups) =
    let rest = add_path key path groups in
    if same_key k key then (k, paths ++ (path ∷ [])) ∷ groups else (k, paths) ∷ rest

unfoldable pub linked_groups : Groups → List (List Bytes)
unfolding sort_texts
linked_groups [] = []
linked_groups ((key, paths) ∷ groups) =
    let rest = linked_groups groups in
    if ltb (length paths) 2 then rest else sort_texts paths ∷ rest

abbrev pub first_path : List Bytes → Bytes
first_path [] = []
first_path (path ∷ paths) = path

unfoldable pub insert_group : List Bytes → List (List Bytes) → List (List Bytes)
unfolding le_text
insert_group group [] = group ∷ []
insert_group group (g ∷ groups) =
    let rest = insert_group group groups in
    if le_text (first_path group) (first_path g) then group ∷ g ∷ groups else g ∷ rest

unfoldable pub sort_groups : List (List Bytes) → List (List Bytes)
unfolding insert_group
sort_groups [] = []
sort_groups (group ∷ groups) = insert_group group (sort_groups groups)

module _ (lookup : Bytes → Option (Option HardLinkKey)) where
  unfoldable pub add_entry : FileEntry → Groups → Result Bytes Groups
  unfolding add_path is_symlink
  add_entry entry groups =
      if entry.is_dir || is_symlink entry then ok groups else (elim (lookup entry.path) [
        | none ↦ err entry.path
        | some none ↦ ok groups
        | some (some key) ↦ ok (add_path key entry.path groups)
      ])

  unfoldable pub collect_groups : List FileEntry → Groups → Result Bytes Groups
  unfolding add_entry
  collect_groups [] groups = ok groups
  collect_groups (entry ∷ entries) groups = do
    next ← add_entry entry groups
    collect_groups entries next

  unfoldable pub detect_hard_links : List FileEntry → Result Bytes (List (List Bytes))
  unfolding collect_groups linked_groups sort_groups
  detect_hard_links entries = do
    groups ← collect_groups entries []
    ok (sort_groups (linked_groups groups))
