-- ===== src/Itemize/Alike.antt =====
-- When an entry is not reported.
use grsync.Base.{
  ℕ, ◌≡◌, refl, sym, ap, ◌∙◌, arith, ◌↔◌, ◌⊎◌, inl, inr, Bool-cases, ==_iff, Bool, true, false, not,
  ◌&&◌, ◌||◌, none, ◌∷◌, Bytes, ◌==◌, ok,
}
use grsync.Base.Int.{ℤ, pos, negsuc}
use grsync.Entry.{FileEntry, is_symlink, perm, AttrOptions}
use grsync.Attributes.{System, AttrResult, apply_attributes}
use grsync.Attributes.Laws.{IsSystem, IsSettled, apply_attributes-IsSettled}
use grsync.Itemize.{
  same_int, letter, unused, changed, time_differs, perms_differ, owner_differs, group_differs,
  owner_letters, attr_letters, file_letters, itemize_file, itemize_dir,
}

same_int_iff : (a b : ℤ) → (same_int a b ≡ true) ↔ (a ≡ b)
same_int_iff (pos a) (pos b) = ground arith
same_int_iff (pos a) (negsuc b) = ground arith
same_int_iff (negsuc a) (pos b) = ground arith
same_int_iff (negsuc a) (negsuc b) = ground arith

changed-letter :
    (differs : Bool) (c : ℕ) (rest : Bytes)
    → (c == b'.') ≡ false
    → changed (letter differs c ∷ rest) ≡ (differs || changed rest)
unfolding changed
changed-letter true c rest h = rw h refl
changed-letter false c rest h = refl

changed-attr_letters :
    (entry old : FileEntry) (opts : AttrOptions)
    → changed (attr_letters entry old opts) ≡ (
        time_differs entry old opts
        || (perms_differ entry old opts
            || (owner_differs entry old opts || (group_differs entry old opts || false))))
unfolding attr_letters owner_letters changed
changed-attr_letters entry old opts =
    let group_rest = letter (group_differs entry old opts) b'g' ∷ unused in
    let owner_rest = letter (owner_differs entry old opts) b'o' ∷ group_rest in
    let perms_rest = letter (perms_differ entry old opts) b'p' ∷ owner_rest in
    changed-letter (time_differs entry old opts) b't' perms_rest refl
    ∙ ap (◌||◌ (time_differs entry old opts)) (
        changed-letter (perms_differ entry old opts) b'p' owner_rest refl
        ∙ ap (◌||◌ (perms_differ entry old opts)) (
            changed-letter (owner_differs entry old opts) b'o' group_rest refl
            ∙ ap (◌||◌ (owner_differs entry old opts))
                (changed-letter (group_differs entry old opts) b'g' unused refl)))

or_false : (a b : Bool) → ((a || b) ≡ false) ↔ ((a ≡ false) × (b ≡ false))
or_false true b = ((λ h. absurd (cc h)), (λ (h, k). absurd (cc h)))
or_false false b = ((λ h. (refl, h)), (λ (h, k). k))

-- A test that is made only where it is asked for.
unless_asked :
    (asked same : Bool) {P : Type 0}
    → (same ≡ true) ↔ P
    → ((asked && not same) ≡ false) ↔ ((asked ≡ false) ⊎ P)
unless_asked false same e = ((λ h. inl refl), (λ h. refl))
unless_asked true true e = ((λ h. inr (e.0 refl)), (λ h. refl))
unless_asked true false e =
    ((λ h. absurd (cc h)), (λ h. elim h [ inl k ↦ absurd (cc k) | inr p ↦ absurd (cc (e.1 p)) ]))

and_assoc : (a b c d : Bool) → (a && (b && (c && d))) ≡ ((a && (b && c)) && d)
and_assoc false b c d = refl
and_assoc true false c d = refl
and_assoc true true c d = refl

-- Two entries that agree in the attributes that are asked for, the owners where both are known.
pub record IsAlike (entry old : FileEntry) (opts : AttrOptions) : Type 0 where
  pub same_time : (opts.times ≡ false) ⊎ (old.mod_time ≡ entry.mod_time)
  pub same_perms : (opts.perms ≡ false) ⊎ (perm old.mode ≡ perm entry.mode)
  pub same_owner :
      ((opts.owner && (old.ownership_available && entry.ownership_available)) ≡ false)
      ⊎ (old.uid ≡ entry.uid)
  pub same_group :
      ((opts.group && (old.ownership_available && entry.ownership_available)) ≡ false)
      ⊎ (old.gid ≡ entry.gid)

owner_lem :
    (entry old : FileEntry) (opts : AttrOptions)
    → (owner_differs entry old opts ≡ false) ↔ (
        ((opts.owner && (old.ownership_available && entry.ownership_available)) ≡ false)
        ⊎ (old.uid ≡ entry.uid))
unfolding owner_differs
owner_lem entry old opts =
    rw
      (and_assoc opts.owner old.ownership_available entry.ownership_available
        (not (old.uid == entry.uid)))
      (unless_asked (opts.owner && (old.ownership_available && entry.ownership_available))
        (old.uid == entry.uid) (==_iff old.uid entry.uid))

group_lem :
    (entry old : FileEntry) (opts : AttrOptions)
    → (group_differs entry old opts ≡ false) ↔ (
        ((opts.group && (old.ownership_available && entry.ownership_available)) ≡ false)
        ⊎ (old.gid ≡ entry.gid))
unfolding group_differs
group_lem entry old opts =
    rw
      (and_assoc opts.group old.ownership_available entry.ownership_available
        (not (old.gid == entry.gid)))
      (unless_asked (opts.group && (old.ownership_available && entry.ownership_available))
        (old.gid == entry.gid) (==_iff old.gid entry.gid))

changed-IsAlike :
    (entry old : FileEntry) (opts : AttrOptions)
    → (changed (attr_letters entry old opts) ≡ false) ↔ IsAlike entry old opts
unfolding time_differs perms_differ
changed-IsAlike entry old opts =
    let time =
      unless_asked opts.times (same_int old.mod_time entry.mod_time)
        (same_int_iff old.mod_time entry.mod_time) in
    let perms =
      unless_asked opts.perms (perm old.mode == perm entry.mode)
        (==_iff (perm old.mode) (perm entry.mode)) in
    let owner = owner_lem entry old opts in
    let group = group_lem entry old opts in
    let all = changed-attr_letters entry old opts in
    (
      (λ h.
          let (t, h1) = (or_false (time_differs entry old opts) _).0 (sym all ∙ h) in
          let (p, h2) = (or_false (perms_differ entry old opts) _).0 h1 in
          let (o, h3) = (or_false (owner_differs entry old opts) _).0 h2 in
          let (g, h4) = (or_false (group_differs entry old opts) _).0 h3 in
          record {
            same_time = time.0 t;
            same_perms = perms.0 p;
            same_owner = owner.0 o;
            same_group = group.0 g;
          }),
      (λ a.
          all
          ∙ (or_false (time_differs entry old opts) _).1 (
            time.1 a.same_time,
            (or_false (perms_differ entry old opts) _).1 (
              perms.1 a.same_perms,
              (or_false (owner_differs entry old opts) _).1 (
                owner.1 a.same_owner,
                (or_false (group_differs entry old opts) _).1 (group.1 a.same_group, refl),
              ),
            ),
          )),
    )

not-true : (b : Bool) → (not b ≡ false) ↔ (b ≡ true)
not-true true = ((λ h. refl), (λ h. refl))
not-true false = ((λ h. absurd (cc h)), (λ h. absurd (cc h)))

changed-file_letters :
    (entry old : FileEntry) (opts : AttrOptions)
    → (changed (file_letters entry old opts) ≡ false)
      ↔ ((old.size ≡ entry.size) × IsAlike entry old opts)
unfolding file_letters changed
changed-file_letters entry old opts =
    let size_test = not (same_int old.size entry.size) in
    let all = changed-letter size_test b's' (attr_letters entry old opts) refl in
    let alike = changed-IsAlike entry old opts in
    let same = same_int_iff old.size entry.size in
    (
      (λ h.
          let (s, rest) =
            (or_false size_test (changed (attr_letters entry old opts))).0 (sym all ∙ h) in
          (same.0 ((not-true (same_int old.size entry.size)).0 s), alike.0 rest)),
      (λ (s, rest).
          all
          ∙ (or_false size_test (changed (attr_letters entry old opts))).1
              ((not-true (same_int old.size entry.size)).1 (same.1 s), alike.1 rest)),
    )

-- A regular file is left out of the report exactly if it was there, its bytes did not change, and
-- it agrees with the entry in its size and in each attribute that is asked for: the time, the
-- permission bits, and the owners where both sides know them.
pub itemize_file-IsAlike :
    (entry old : FileEntry) (existed content_changed : Bool) (opts : AttrOptions)
    → (itemize_file entry old existed content_changed opts ≡ none) ↔ (
        (existed ≡ true)
        × (content_changed ≡ false)
        × (old.size ≡ entry.size)
        × IsAlike entry old opts)
unfolding itemize_file
itemize_file-IsAlike entry old false content_changed opts =
    ((λ h. absurd (cc h)), (λ (h, _, _, _). absurd (cc h)))
itemize_file-IsAlike entry old true true opts =
    elim (Bool-cases (changed (file_letters entry old opts))) [
      | inl some_change ↦ (
        (λ h. absurd (cc (rw (some_change, itemize_file) at h))),
        (λ (_, h, _, _). absurd (cc h)),
      )
      | inr no_change ↦
          ((λ h. absurd (cc (rw (no_change, itemize_file) at h))), (λ (_, h, _, _). absurd (cc h)))
    ]
itemize_file-IsAlike entry old true false opts =
    let letters = changed-file_letters entry old opts in
    elim (Bool-cases (changed (file_letters entry old opts))) [
      | inl some_change ↦ (
        (λ h. absurd (cc (rw (some_change, itemize_file) at h))),
        (λ (_, _, s, a). absurd (cc (sym some_change ∙ letters.1 (s, a)))),
      )
      | inr no_change ↦ (
        (λ h. (refl, refl, (letters.0 no_change).0, (letters.0 no_change).1)),
        (λ h. rw (no_change, itemize_file) refl),
      )
    ]

itemize_dir-IsAlike :
    (entry old : FileEntry) (opts : AttrOptions)
    → IsAlike entry old opts
    → itemize_dir entry old true opts ≡ none
unfolding itemize_dir changed
itemize_dir-IsAlike entry old opts a = rw ((changed-IsAlike entry old opts).1 a) refl

and_left : (a b c : Bool) → (a && c) ≡ false → (a && (b && c)) ≡ false
and_left false b c h = refl
and_left true false c h = refl
and_left true true c h = h

IsSettled-IsAlike :
    (entry dest : FileEntry) (opts : AttrOptions)
    → IsSettled entry opts dest
    → IsAlike entry dest opts
IsSettled-IsAlike entry dest opts s = record {
  same_time = s.same_times;
  same_perms = s.same_perms;
  same_owner = elim s.same_owner [
    | inl unasked ↦
        inl (and_left opts.owner dest.ownership_available entry.ownership_available unasked)
    | inr same ↦ inr same
  ];
  same_group = elim s.same_group [
    | inl unasked ↦
        inl (and_left opts.group dest.ownership_available entry.ownership_available unasked)
    | inr same ↦ inr same
  ];
}

-- What ApplyAttributes has applied is not reported again: behind a call of it that succeeds, a file
-- of the entry's size whose bytes do not change is left out of the next report, and so is a
-- directory. The entry is no symbolic link, and the file system keeps times to the nanosecond.
pub itemize-apply_attributes :
    (os : System) (entry old : FileEntry) (opts : AttrOptions) (result : FileEntry × AttrResult)
    → IsSystem os
    → is_symlink entry ≡ false
    → old.size ≡ entry.size
    → apply_attributes os entry opts old ≡ ok result
    → (itemize_file entry result.0 true false opts ≡ none)
      × (itemize_dir entry result.0 true opts ≡ none)
itemize-apply_attributes os entry old opts result law plain same_size done =
    let (settled, kept_size) = apply_attributes-IsSettled os law entry opts old result plain done in
    let alike = IsSettled-IsAlike entry result.0 opts settled in
    (
      (itemize_file-IsAlike entry result.0 true false opts).1
          (refl, refl, kept_size ∙ same_size, alike),
      itemize_dir-IsAlike entry result.0 opts alike,
    )
