-- ===== src/Itemize.antt =====
-- internal/pipeline/itemize.go: the codes of changed entries, and the lines that report them. A
-- code is `none` where the source's `report` is false.
pub mod Alike
mod Tests
use grsync.Base.{
  ℕ, Bool, true, false, not, ◌&&◌, ◌||◌, Option, none, some, List, [], ◌∷◌, ◌++◌, Bytes, codes,
  ◌==◌, if◌then◌else◌, same_bytes,
}
use grsync.Base.Int.{ℤ, pos, negsuc}
use grsync.Entry.{FileEntry, is_symlink, perm, AttrOptions}
use grsync.Receiver.{ReceiverOptions}

abbrev pub same_int : ℤ → ℤ → Bool
same_int (pos a) (pos b) = a == b
same_int (negsuc a) (negsuc b) = a == b
same_int _ _ = false

-- A position of `itemizeAttrs`.
abbrev pub letter : Bool → ℕ → ℕ
letter changed c = if changed then c else b'.'

-- The last three positions are never set.
abbrev pub unused : Bytes
unused = b'.' ∷ b'.' ∷ b'.' ∷ []

unfoldable pub changed : Bytes → Bool
changed [] = false
changed (b ∷ attrs) = not (b == b'.') || changed attrs

abbrev pub itemize_new_suffix : Bytes
itemize_new_suffix = codes "+++++++++"

unfoldable pub time_differs : FileEntry → FileEntry → AttrOptions → Bool
time_differs entry old opts = opts.times && not (same_int old.mod_time entry.mod_time)

unfoldable pub perms_differ : FileEntry → FileEntry → AttrOptions → Bool
unfolding perm
perms_differ entry old opts = opts.perms && not (perm old.mode == perm entry.mode)

unfoldable pub owner_differs : FileEntry → FileEntry → AttrOptions → Bool
owner_differs entry old opts =
    opts.owner
    && (old.ownership_available && (entry.ownership_available && not (old.uid == entry.uid)))

unfoldable pub group_differs : FileEntry → FileEntry → AttrOptions → Bool
group_differs entry old opts =
    opts.group
    && (old.ownership_available && (entry.ownership_available && not (old.gid == entry.gid)))

unfoldable pub owner_letters : FileEntry → FileEntry → AttrOptions → Bytes
unfolding owner_differs group_differs
owner_letters entry old opts =
    letter (owner_differs entry old opts) b'o' ∷ letter (group_differs entry old opts) b'g' ∷ unused

-- The positions behind the size.
unfoldable pub attr_letters : FileEntry → FileEntry → AttrOptions → Bytes
unfolding time_differs perms_differ owner_letters
attr_letters entry old opts =
    letter (time_differs entry old opts) b't'
    ∷ letter (perms_differ entry old opts) b'p'
    ∷ owner_letters entry old opts

unfoldable pub file_letters : FileEntry → FileEntry → AttrOptions → Bytes
unfolding attr_letters
file_letters entry old opts =
    b'.' ∷ letter (not (same_int old.size entry.size)) b's' ∷ attr_letters entry old opts

unfoldable pub itemize_file : FileEntry → FileEntry → Bool → Bool → AttrOptions → Option Bytes
unfolding file_letters changed
itemize_file entry old existed content_changed opts =
    let a = file_letters entry old opts in
    if not existed
    then some (codes ">f" ++ itemize_new_suffix)
    else if not (changed a) && not content_changed
    then none
    else some ((if content_changed then b'>' else b'.') ∷ b'f' ∷ a)

unfoldable pub itemize_dir : FileEntry → FileEntry → Bool → AttrOptions → Option Bytes
unfolding attr_letters changed
itemize_dir entry old existed opts =
    let a = b'.' ∷ b'.' ∷ attr_letters entry old opts in
    if not existed
    then some (codes "cd" ++ itemize_new_suffix)
    else if not (changed a)
    then none
    else some (codes ".d" ++ a)

unfoldable pub itemize_symlink : FileEntry → FileEntry → Bool → AttrOptions → Option Bytes
unfolding owner_letters changed same_bytes
itemize_symlink entry old existed opts =
    let a =
      letter (not (same_bytes old.link_target entry.link_target)) b'c'
      ∷ b'.'
      ∷ b'.'
      ∷ b'.'
      ∷ owner_letters entry old opts in
    if not existed
    then some (codes "cL" ++ itemize_new_suffix)
    else if not (changed a)
    then none
    else some (codes "cL" ++ a)

abbrev pub itemize_hard_link : Bytes
itemize_hard_link = codes "hf" ++ itemize_new_suffix

unfoldable pub format_verbose_line : Bytes → Bytes → Bytes
format_verbose_line path [] = path
format_verbose_line path (c ∷ target) = path ++ codes " -> " ++ (c ∷ target)

unfoldable pub format_itemize_line : Bytes → Bytes → Bytes → Bytes
format_itemize_line code path [] = code ++ (b' ' ∷ path)
format_itemize_line code path (c ∷ target) = code ++ (b' ' ∷ path) ++ codes " -> " ++ (c ∷ target)

-- What is written to the output.
unfoldable pub report_change : ReceiverOptions → Option Bytes → FileEntry → Bytes
unfolding is_symlink format_itemize_line format_verbose_line
report_change ropts none entry = []
report_change ropts (some code) entry =
    let target = if is_symlink entry then entry.link_target else [] in
    if not ropts.itemize && not ropts.verbose
    then []
    else if ropts.itemize
    then format_itemize_line code entry.path target ++ (b'\n' ∷ [])
    else format_verbose_line entry.path target ++ (b'\n' ∷ [])
