-- ===== src/Itemize/Tests.antt =====
-- Codes and lines of the report, and its theorem at a concrete file.
use grsync.Base.{◌≡◌, refl, true, false, ◌↔◌, some_injective, none, some, [], ◌∷◌, ◌++◌, codes}
use grsync.Base.Int.{pos}
use grsync.Entry.{FileEntry, is_symlink, AttrOptions}
use grsync.Receiver.{ReceiverOptions}
use grsync.Attributes.{System, AttrResult, apply_attributes}
use grsync.Attributes.Laws.{or_kept, IsSystem}
use grsync.Itemize.{itemize_file, itemize_dir, itemize_symlink, itemize_hard_link, report_change}
use grsync.Itemize.Alike.{IsAlike, itemize_file-IsAlike, itemize-apply_attributes}

abbrev entry : FileEntry
entry = record {
  path = codes "a";
  size = pos 3;
  mod_time = pos 9;
  mode = 420;
  uid = 5;
  gid = 6;
  ownership_available = true;
  link_target = [];
  is_dir = false;
}

abbrev old : FileEntry
old = record {
  path = codes "a";
  size = pos 3;
  mod_time = pos 1;
  mode = 493;
  uid = 0;
  gid = 0;
  ownership_available = true;
  link_target = [];
  is_dir = false;
}

abbrev most : AttrOptions
most = record {
  perms = true;
  times = true;
  owner = false;
  group = true;
  links = true;
  hard_links = true;
  devices = false;
}

abbrev itemizing : ReceiverOptions
itemizing = record {
  dry_run = false;
  itemize = true;
  verbose = true;
  progress = false;
  stats = false;
  partial = false;
  partial_dir = [];
  append = false;
  append_verify = false;
}

itemize_attributes : itemize_file entry old true false most ≡ some (codes ".f..tp.g...")
unfolding itemize_file
itemize_attributes = refl

itemize_content :
    itemize_file entry (record entry { size = pos 2 }) true true most ≡ some (codes ">f.s.......")
unfolding itemize_file
itemize_content = refl

itemize_new : itemize_dir entry old false most ≡ some (codes "cd+++++++++")
unfolding itemize_dir
itemize_new = refl

itemize_target :
    itemize_symlink
      (record entry { link_target = codes "t" })
      entry
      true
      (record most { group = false })
    ≡ some (codes "cLc........")
unfolding itemize_symlink
itemize_target = refl

report_link :
    report_change itemizing
      (some itemize_hard_link)
      (record entry { mode = 134_217_728; link_target = codes "t" })
    ≡ codes "hf+++++++++ a -> t" ++ (b'\n' ∷ [])
unfolding report_change
report_link = refl

-- A system whose calls all succeed.
abbrev system : System
system = record {
  chmod = λ mode e. some (record e { mode = mode });
  chtimes = λ time e. some (record e { mod_time = time });
  lchown = λ uid gid e. some (record e { uid = or_kept uid e.uid; gid = or_kept gid e.gid });
  symlink = λ target e. some (record e { link_target = target });
}

system-IsSystem : IsSystem system
system-IsSystem = record {
  chmod_law = λ mode e e' h. rw (← some_injective h) (refl, refl);
  chtimes_law = λ time e e' h. rw (← some_injective h) refl;
  lchown_law = λ uid gid e e' h. rw (← some_injective h) (refl, refl);
}

abbrev settled : FileEntry
settled = record old { mode = 420; mod_time = pos 9; gid = 6 }

abbrev report : AttrResult
report = record {
  perms_applied = true;
  times_applied = true;
  owner_applied = true;
  owner_skipped = false;
  link_applied = false;
}

itemize-apply_attributes_example :
    (itemize_file entry settled true false most ≡ none)
    × (itemize_dir entry settled true most ≡ none)
itemize-apply_attributes_example =
    itemize-apply_attributes system entry old most (settled, report) system-IsSystem
      (unfold is_symlink in refl) refl (unfold apply_attributes in refl)

itemize_file-IsAlike_example :
    (itemize_file entry settled true false most ≡ none)
    ↔ ((true ≡ true) × (false ≡ false) × (settled.size ≡ entry.size) × IsAlike entry settled most)
itemize_file-IsAlike_example = itemize_file-IsAlike entry settled true false most
