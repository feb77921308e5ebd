-- ===== src/Attributes.antt =====
-- internal/sync/attributes.go: ApplyAttributes and the functions it calls. The calls of the
-- operating system are an argument: what they make of the entry that stands at a path, or `none`
-- for an error.
pub mod Laws
use grsync.Base.{
  ℕ, Bool, true, false, not, ◌||◌, Option, none, some, Bytes, [], ◌∷◌, if◌then◌else◌, Result, ok,
  err, panic, ◌>>=◌,
}
use grsync.Base.Int.{ℤ}
use grsync.Entry.{FileEntry, is_symlink, perm, AttrOptions}

-- `os.Chmod`, `os.Chtimes`, `os.Lchown` (an id that is left alone is `none`), and `os.Symlink`
-- behind `os.Remove`.
pub record System : Type 0 where
  pub chmod : ℕ → FileEntry → Option FileEntry
  pub chtimes : ℤ → FileEntry → Option FileEntry
  pub lchown : Option ℕ → Option ℕ → FileEntry → Option FileEntry
  pub symlink : Bytes → FileEntry → Option FileEntry

pub data AttrError : Type 0 where
  creating_symlink applying_permissions applying_time applying_ownership : AttrError

pub record AttrResult : Type 0 where
  pub perms_applied : Bool
  pub times_applied : Bool
  pub owner_applied : Bool
  pub owner_skipped : Bool
  pub link_applied : Bool

abbrev pub or_error : {A : Type 0} → AttrError → Option A → Result AttrError A
or_error e none = err e
or_error e (some a) = ok a

module _ (os : System) where
  unfoldable pub apply_perms : ℕ → FileEntry → Result AttrError FileEntry
  unfolding perm
  apply_perms mode dest = or_error applying_permissions (os.chmod (perm mode) dest)

  unfoldable pub apply_times : ℤ → FileEntry → Result AttrError FileEntry
  apply_times mod_time dest = or_error applying_time (os.chtimes mod_time dest)

  -- The entry, and whether ownership was applied or skipped.
  unfoldable pub apply_ownership :
      FileEntry → Bool → Bool → FileEntry → Result AttrError (FileEntry × (Bool × Bool))
  apply_ownership entry apply_owner apply_group dest =
      if not (apply_owner || apply_group)
      then ok (dest, (false, false))
      else if not entry.ownership_available
      then ok (dest, (false, true))
      else (do
        next ← or_error applying_ownership (
            os.lchown (if apply_owner then some entry.uid else none)
              (if apply_group then some entry.gid else none) dest)
        ok (next, (true, false)))

  unfoldable pub apply_symlink : FileEntry → FileEntry → Result AttrError FileEntry
  unfolding is_symlink
  apply_symlink entry dest =
      if not (is_symlink entry) then err creating_symlink else (elim entry.link_target [
        | [] ↦ err creating_symlink
        | c ∷ target ↦ or_error creating_symlink (os.symlink (c ∷ target) dest)
      ])

  -- The part of `ApplyAttributes` before ownership.
  unfoldable pub apply_mode_and_time :
      FileEntry → AttrOptions → FileEntry → Result AttrError FileEntry
  unfolding apply_perms apply_times apply_symlink
  apply_mode_and_time entry opts dest =
      if is_symlink entry then (if opts.links then apply_symlink entry dest else ok dest) else (do
        with_perms ← if opts.perms then apply_perms entry.mode dest else ok dest
        if opts.times then apply_times entry.mod_time with_perms else ok with_perms)

  -- `applied` and `skipped` are what `applyOwnership` says.
  unfoldable pub report_of : FileEntry → AttrOptions → Bool × Bool → AttrResult
  report_of entry opts (applied, skipped) = record {
    perms_applied = if is_symlink entry then false else opts.perms;
    times_applied = if is_symlink entry then false else opts.times;
    owner_applied = applied;
    owner_skipped = skipped;
    link_applied = if is_symlink entry then opts.links else false;
  }

  unfoldable pub apply_attributes :
      FileEntry → AttrOptions → FileEntry → Result AttrError (FileEntry × AttrResult)
  unfolding apply_mode_and_time apply_ownership report_of
  apply_attributes entry opts dest = do
    next ← apply_mode_and_time entry opts dest
    owned ← apply_ownership entry opts.owner opts.group next
    ok (owned.0, report_of entry opts owned.1)
