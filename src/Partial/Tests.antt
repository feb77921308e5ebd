-- ===== src/Partial/Tests.antt =====
-- Places of partial files, and the end of a file's writing at concrete files.
use grsync.Base.{◌≡◌, refl, inr, true, false, none, some, codes, same_bytes}
use grsync.Receiver.{ReceiverOptions}
use grsync.Exchange.{Store, put}
use grsync.Partial.{partial_file_path, Faults, finish_regular_file_write}
use grsync.Partial.Whole.{IsWhole, finish_regular_file_write-IsWhole}

abbrev keeping : ReceiverOptions
keeping = record {
  dry_run = false;
  itemize = false;
  verbose = false;
  progress = false;
  stats = false;
  partial = false;
  partial_dir = codes ".part";
  append = false;
  append_verify = false;
}

relative_place :
    partial_file_path (codes "/srv/d/a") (codes ".part") (codes "d/a") ≡ codes "/srv/d/.part/a"
unfolding partial_file_path
relative_place = refl

absolute_place :
    partial_file_path (codes "/srv/d/a") (codes "/tmp/p") (codes "d/a") ≡ codes "/tmp/p/d/a"
unfolding partial_file_path
absolute_place = refl

bare_place : partial_file_path (codes "a") (codes "p") (codes "a") ≡ codes "p/a"
unfolding partial_file_path
bare_place = refl

place_is_destination :
    partial_file_path (codes "/srv/d/a") (codes ".") (codes "d/a") ≡ codes "/srv/d/a"
unfolding partial_file_path
place_is_destination = refl

place_above : partial_file_path (codes "d/e/a") (codes "../p/") (codes "a") ≡ codes "d/p/a"
unfolding partial_file_path
place_above = refl

abbrev files : Store
files = put (put (λ p. none) (codes "d/.a.tmp") (codes "new")) (codes "d/a") (codes "old")

abbrev no_rename : Faults
no_rename = record {
  rename_fails = true;
  mkdir_fails = false;
  keep_fails = false;
  remove_fails = true;
  remove_basis_fails = true;
}

kept_apart :
    (finish_regular_file_write no_rename files
        (codes "d/.a.tmp")
        (codes "d/a")
        true
        keeping
        (codes "a")
        false).1
      (codes "d/.part/a")
    ≡ some (codes "new")
unfolding finish_regular_file_write
kept_apart = refl

finish_regular_file_write-IsWhole_example :
    IsWhole no_rename files (codes "d/.a.tmp") (codes "d/a") keeping (
      finish_regular_file_write no_rename files
        (codes "d/.a.tmp")
        (codes "d/a")
        true
        keeping
        (codes "a")
        false)
unfolding same_bytes partial_file_path
finish_regular_file_write-IsWhole_example =
    finish_regular_file_write-IsWhole no_rename files (codes "d/.a.tmp") (codes "d/a") true keeping
      (codes "a") false refl (inr (refl, refl))
