-- ===== src/Partial.antt =====
-- internal/pipeline/partial.go: what becomes of a temporary file. Paths are those of a Unix system
-- and the destination's path is clean, as `filepath.Join` makes it.
pub mod Whole
mod Tests
use grsync.Base.{
  ℕ, Bool, true, false, not, ◌||◌, Option, none, some, List, [], ◌∷◌, ◌++◌, Bytes, codes,
  contains_byte, ends_with, if◌then◌else◌, same_bytes, ◌==◌, ◌&&◌, split_on,
}
use grsync.Receiver.{ReceiverOptions}
use grsync.Exchange.{Store, put}

unfoldable pub keep_partial : ReceiverOptions → Bool
keep_partial ropts = ropts.partial || (elim ropts.partial_dir [ [] ↦ false | c ∷ dir ↦ true ])

-- `filepath.Base`: what stands behind the last slash.
unfoldable pub base_name : Bytes → Bytes
unfolding contains_byte
base_name [] = []
base_name (c ∷ path) = if contains_byte (c ∷ path) b'/' then base_name path else c ∷ path

-- What stands before the last slash, and the slash.
unfoldable pub before_base : Bytes → Bytes
unfolding contains_byte
before_base [] = []
before_base (c ∷ path) = if contains_byte (c ∷ path) b'/' then c ∷ before_base path else []

-- `filepath.Clean` of the parts of a path, with the parts before them, the last one first.
unfoldable pub clean_parts : Bool → List Bytes → List Bytes → List Bytes
unfolding same_bytes
clean_parts rooted before [] = before
clean_parts rooted before ([] ∷ parts) = clean_parts rooted before parts
clean_parts rooted [] ((c ∷ part) ∷ parts) =
    let next =
      if same_bytes (c ∷ part) (codes ".") || (rooted && same_bytes (c ∷ part) (codes ".."))
      then []
      else (c ∷ part) ∷ [] in
    clean_parts rooted next parts
clean_parts rooted (last ∷ before) ((c ∷ part) ∷ parts) =
    let next =
      if same_bytes (c ∷ part) (codes ".")
      then last ∷ before
      else if same_bytes (c ∷ part) (codes "..") && not (same_bytes last (codes ".."))
      then before
      else (c ∷ part) ∷ last ∷ before in
    clean_parts rooted next parts

unfoldable pub joined_parts : List Bytes → Bytes
joined_parts [] = []
joined_parts (last ∷ []) = last
joined_parts (last ∷ part ∷ before) = joined_parts (part ∷ before) ++ (b'/' ∷ last)

unfoldable pub is_abs : Bytes → Bool
is_abs [] = false
is_abs (c ∷ path) = c == b'/'

unfoldable pub clean : Bytes → Bytes
unfolding clean_parts joined_parts is_abs split_on
clean path =
    if is_abs path
    then b'/' ∷ joined_parts (clean_parts true [] (split_on b'/' path))
    else (elim (joined_parts (clean_parts false [] (split_on b'/' path))) [
      | [] ↦ codes "."
      | c ∷ cleaned ↦ c ∷ cleaned
    ])

unfoldable pub with_slashes : List Bytes → Bytes
with_slashes [] = []
with_slashes ([] ∷ paths) = with_slashes paths
with_slashes ((c ∷ path) ∷ paths) =
    (c ∷ path) ++ (elim (with_slashes paths) [ [] ↦ [] | d ∷ rest ↦ b'/' ∷ d ∷ rest ])

-- `filepath.Join`: empty parts are left out.
unfoldable pub join_path : List Bytes → Bytes
unfolding with_slashes clean
join_path paths = elim (with_slashes paths) [ [] ↦ [] | c ∷ path ↦ clean (c ∷ path) ]

unfoldable pub partial_file_path : Bytes → Bytes → Bytes → Bytes
unfolding base_name before_base join_path clean is_abs
partial_file_path dest_path partial_dir rel_path =
    if is_abs partial_dir
    then join_path (partial_dir ∷ rel_path ∷ [])
    else join_path (clean (before_base dest_path) ∷ partial_dir ∷ base_name dest_path ∷ [])

unfoldable pub without : Store → Bytes → Store
unfolding same_bytes
without store path p = if same_bytes path p then none else store p

-- `os.Remove`, which may fail; every use here ignores the error.
unfoldable pub remove : Bool → Store → Bytes → Store
unfolding without
remove fails store path = if fails then store else without store path

-- `os.Rename`; `none` is an error, which leaves the files as they were.
unfoldable pub rename : Bool → Store → Bytes → Bytes → Option Store
unfolding without put
rename fails store path target = if fails then none else (elim (store path) [
  | none ↦ none
  | some content ↦ some (put (without store path) target content)
])

-- Which calls fail: `os.Rename` into place, `os.MkdirAll`, `os.Rename` to the file that is kept,
-- `os.Remove` of the temporary file, and of the partial file that was the basis.
pub record Faults : Type 0 where
  pub rename_fails : Bool
  pub mkdir_fails : Bool
  pub keep_fails : Bool
  pub remove_fails : Bool
  pub remove_basis_fails : Bool

-- The content of a partial file, if there is a usable one.
unfoldable pub load_partial_basis : Store → Bytes → ReceiverOptions → Bytes → Option Bytes
unfolding partial_file_path
load_partial_basis store dest_path ropts rel_path = elim ropts.partial_dir [
  | [] ↦ none
  | c ∷ dir ↦ store (partial_file_path dest_path (c ∷ dir) rel_path)
]

unfoldable pub keep_at : Faults → Store → Bytes → Bytes → Store
unfolding rename remove
keep_at faults store tmp_path target = elim (rename faults.keep_fails store tmp_path target) [
  | none ↦ remove faults.remove_fails store tmp_path
  | some kept ↦ kept
]

-- Kept at the destination, or in the directory of partial files.
unfoldable pub keep_in : Faults → Store → Bytes → Bytes → Bytes → Bytes → Store
unfolding keep_at remove partial_file_path
keep_in faults store tmp_path dest_path [] rel_path = keep_at faults store tmp_path dest_path
keep_in faults store tmp_path dest_path (c ∷ dir) rel_path =
    if faults.mkdir_fails
    then remove faults.remove_fails store tmp_path
    else keep_at faults store tmp_path (partial_file_path dest_path (c ∷ dir) rel_path)

unfoldable pub abandon_or_keep : Faults → Store → Bytes → Bytes → ReceiverOptions → Bytes → Store
unfolding keep_partial keep_in remove
abandon_or_keep faults store tmp_path dest_path ropts rel_path =
    if not (keep_partial ropts)
    then remove faults.remove_fails store tmp_path
    else keep_in faults store tmp_path dest_path ropts.partial_dir rel_path

-- Whether the file was written, and the files. `written` says that the temporary file was written
-- whole.
unfoldable pub finish_regular_file_write :
    Faults → Store → Bytes → Bytes → Bool → ReceiverOptions → Bytes → Bool → Bool × Store
unfolding abandon_or_keep rename remove partial_file_path
finish_regular_file_write faults store tmp_path dest_path written ropts rel_path
      used_partial_basis =
    if not written
    then (false, abandon_or_keep faults store tmp_path dest_path ropts rel_path)
    else (elim (rename faults.rename_fails store tmp_path dest_path) [
      | none ↦ (false, abandon_or_keep faults store tmp_path dest_path ropts rel_path)
      | some moved ↦
          if used_partial_basis
          then (
            true,
            remove faults.remove_basis_fails moved
                (partial_file_path dest_path ropts.partial_dir rel_path),
          )
          else (true, moved)
    ])
