-- ===== src/Partial/Whole.antt =====
-- The temporary file is left behind only if it cannot be removed, and a destination is whole.
use grsync.Base.{
  ◌≡◌, refl, sym, ap, ◌∙◌, ◌⊎◌, inl, inr, Bool-cases, Option-cases, some_injective, Bool, true,
  false, none, some, [], ◌∷◌, Bytes, if◌then◌else◌, same_bytes, same_bytes_refl,
}
use grsync.Receiver.{ReceiverOptions}
use grsync.Exchange.{Store, put}
use grsync.Exchange.Contents.{put-other, put_own, same_bytes-false}
use grsync.Partial.{
  keep_partial, partial_file_path, without, remove, rename, keep_in, Faults, keep_at,
  abandon_or_keep, finish_regular_file_write,
}

without_own : (store : Store) (path : Bytes) → without store path path ≡ none
unfolding without
without_own store path = rw (same_bytes_refl path) refl

without-other :
    (store : Store) (path p : Bytes) → same_bytes path p ≡ false → without store path p ≡ store p
unfolding without
without-other store path p h = rw h refl

remove-other :
    (fails : Bool) (store : Store) (path p : Bytes)
    → same_bytes path p ≡ false
    → remove fails store path p ≡ store p
unfolding remove
remove-other true store path p h = refl
remove-other false store path p h = without-other store path p h

-- A file that is gone, or that could not be removed.
abbrev Gone : Bool → Store → Store → Bytes → Type 0
Gone fails store left path = (left path ≡ none) ⊎ ((fails ≡ true) × (left path ≡ store path))

remove-Gone :
    (fails : Bool) (store : Store) (path : Bytes) → Gone fails store (remove fails store path) path
unfolding remove
remove-Gone true store path = inr (refl, refl)
remove-Gone false store path = inl (without_own store path)

rename-some :
    (fails : Bool) (store moved : Store) (path target : Bytes)
    → rename fails store path target ≡ some moved
    → (content : Bytes) × (store path ≡ some content)
      × (moved ≡ put (without store path) target content)
unfolding rename
rename-some true store moved path target h = absurd (cc h)
rename-some false store moved path target h = elim (Option-cases (store path)) [
  | inl missing ↦ absurd (cc (rw (missing, rename) at h))
  | inr (content, there) ↦ (content, there, sym (some_injective (rw (there, rename) at h)))
]

-- Files after a move: the path is free, the target has its content, and nothing else has changed.
record IsMoved (store moved : Store) (path target : Bytes) : Type 0 where
  pub free : same_bytes target path ≡ false → moved path ≡ none
  pub arrived : moved target ≡ store path
  pub others :
      (p : Bytes) → same_bytes path p ≡ false → same_bytes target p ≡ false → moved p ≡ store p

rename-IsMoved :
    (fails : Bool) (store moved : Store) (path target : Bytes)
    → rename fails store path target ≡ some moved
    → IsMoved store moved path target
rename-IsMoved fails store moved path target h =
    let (content, there, eq) = rename-some fails store moved path target h in
    rw eq record {
      free = λ apart.
          put-other (without store path) target path content apart ∙ without_own store path;
      arrived = put_own (without store path) target content ∙ sym there;
      others =
          λ p a b. put-other (without store path) target p content b ∙ without-other store path p a;
    }

-- What a temporary file leaves that is not moved into place: it is gone if it could be removed, and
-- the destination has what it had, unless it is the place where partial files are kept.
record IsLeft (fails : Bool) (store left : Store) (tmp_path dest_path : Bytes)
    (ropts : ReceiverOptions) : Type 0 where
  pub gone : Gone fails store left tmp_path
  pub dest_kept :
      (left dest_path ≡ store dest_path)
      ⊎ ((ropts.partial_dir ≡ []) × (ropts.partial ≡ true) × (left dest_path ≡ store tmp_path))

removed-IsLeft :
    (faults : Faults) (store : Store) (tmp_path dest_path : Bytes) (ropts : ReceiverOptions)
    → same_bytes tmp_path dest_path ≡ false
    → IsLeft faults.remove_fails store
        (remove faults.remove_fails store tmp_path)
        tmp_path
        dest_path
        ropts
removed-IsLeft faults store tmp_path dest_path ropts apart = record {
  gone = remove-Gone faults.remove_fails store tmp_path;
  dest_kept = inl (remove-other faults.remove_fails store tmp_path dest_path apart);
}

keep_at-IsLeft :
    (faults : Faults) (store : Store) (tmp_path dest_path target : Bytes) (ropts : ReceiverOptions)
    → same_bytes tmp_path dest_path ≡ false
    → same_bytes target tmp_path ≡ false
    → (same_bytes target dest_path ≡ false)
      ⊎ ((target ≡ dest_path) × (ropts.partial_dir ≡ []) × (ropts.partial ≡ true))
    → IsLeft faults.remove_fails store
        (keep_at faults store tmp_path target)
        tmp_path
        dest_path
        ropts
unfolding keep_at
keep_at-IsLeft faults store tmp_path dest_path target ropts apart away place =
    elim (Option-cases (rename faults.keep_fails store tmp_path target)) [
      | inl failed ↦
          rw (failed, keep_at) (removed-IsLeft faults store tmp_path dest_path ropts apart)
      | inr (moved, done) ↦
          let m = rename-IsMoved faults.keep_fails store moved tmp_path target done in
          rw (done, keep_at)
            record {
              gone = inl (m.free away);
              dest_kept = elim place [
                | inl elsewhere ↦ inl (m.others dest_path apart elsewhere)
                | inr (here, no_dir, partial) ↦
                    inr (no_dir, partial, ap moved (sym here) ∙ m.arrived)
              ];
            }
    ]

-- The place of partial files is another than the temporary file's and the destination.
abbrev pub Elsewhere : Bytes → Bytes → Bytes → Bytes → Type 0
Elsewhere tmp_path dest_path partial_dir rel_path =
    (same_bytes (partial_file_path dest_path partial_dir rel_path) tmp_path ≡ false)
    × (same_bytes (partial_file_path dest_path partial_dir rel_path) dest_path ≡ false)

keep_partial-partial :
    (ropts : ReceiverOptions)
    → keep_partial ropts ≡ true
    → [] ≡ ropts.partial_dir
    → ropts.partial ≡ true
unfolding keep_partial
keep_partial-partial ropts keep no_dir = elim (Bool-cases ropts.partial) [
  | inl asked ↦ asked
  | inr unasked ↦ absurd (cc (rw (unasked, ← no_dir) at keep))
]

keep_in-IsLeft :
    (faults : Faults) (store : Store) (tmp_path dest_path dir : Bytes) (ropts : ReceiverOptions)
    (rel_path : Bytes)
    → same_bytes tmp_path dest_path ≡ false
    → dir ≡ ropts.partial_dir
    → keep_partial ropts ≡ true
    → (dir ≡ []) ⊎ Elsewhere tmp_path dest_path dir rel_path
    → IsLeft faults.remove_fails store
        (keep_in faults store tmp_path dest_path dir rel_path)
        tmp_path
        dest_path
        ropts
unfolding keep_in
keep_in-IsLeft faults store tmp_path dest_path [] ropts rel_path apart no_dir keep place =
    keep_at-IsLeft faults store tmp_path dest_path dest_path ropts apart
      (same_bytes-false tmp_path dest_path apart)
      (inr (refl, sym no_dir, keep_partial-partial ropts keep no_dir))
keep_in-IsLeft faults store tmp_path dest_path (c ∷ dir) ropts rel_path apart some_dir keep
      (inl none_given) =
    absurd (cc none_given)
keep_in-IsLeft faults store tmp_path dest_path (c ∷ dir) ropts rel_path apart some_dir keep
      (inr (from_tmp, from_dest)) =
    elim (Bool-cases faults.mkdir_fails) [
      | inl failed ↦
          rw (failed, keep_in) (removed-IsLeft faults store tmp_path dest_path ropts apart)
      | inr made ↦
          rw (made, keep_in)
            (keep_at-IsLeft faults store tmp_path dest_path
              (partial_file_path dest_path (c ∷ dir) rel_path) ropts apart from_tmp (inl from_dest))
    ]

abandon_or_keep-IsLeft :
    (faults : Faults) (store : Store) (tmp_path dest_path : Bytes) (ropts : ReceiverOptions)
    (rel_path : Bytes)
    → same_bytes tmp_path dest_path ≡ false
    → (ropts.partial_dir ≡ []) ⊎ Elsewhere tmp_path dest_path ropts.partial_dir rel_path
    → IsLeft faults.remove_fails store
        (abandon_or_keep faults store tmp_path dest_path ropts rel_path)
        tmp_path
        dest_path
        ropts
unfolding abandon_or_keep
abandon_or_keep-IsLeft faults store tmp_path dest_path ropts rel_path apart place =
    elim (Bool-cases (keep_partial ropts)) [
      | inr drop_it ↦
          rw (drop_it, abandon_or_keep) (removed-IsLeft faults store tmp_path dest_path ropts apart)
      | inl keep ↦
          rw (keep, abandon_or_keep)
            (keep_in-IsLeft faults store tmp_path dest_path ropts.partial_dir ropts rel_path apart
              refl keep place)
    ]

-- What the end of a file's writing guarantees. `result` says whether the file counts as written.
pub record IsWhole (faults : Faults) (store : Store) (tmp_path dest_path : Bytes)
    (ropts : ReceiverOptions) (result : Bool × Store) : Type 0 where
  pub gone :
      (result.1 tmp_path ≡ none)
      ⊎ ((result.0 ≡ false) × (faults.remove_fails ≡ true) × (result.1 tmp_path ≡ store tmp_path))
  pub whole :
      ((result.0 ≡ true) × (result.1 dest_path ≡ store tmp_path))
      ⊎ ((result.0 ≡ false) × (result.1 dest_path ≡ store dest_path))
      ⊎ ((result.0 ≡ false)
          × (ropts.partial_dir ≡ [])
          × (ropts.partial ≡ true)
          × (result.1 dest_path ≡ store tmp_path))

left-IsWhole :
    (faults : Faults) (store left : Store) (tmp_path dest_path : Bytes) (ropts : ReceiverOptions)
    → IsLeft faults.remove_fails store left tmp_path dest_path ropts
    → IsWhole faults store tmp_path dest_path ropts (false, left)
left-IsWhole faults store left tmp_path dest_path ropts l = record {
  gone = elim l.gone [ inl gone ↦ inl gone | inr (stuck, there) ↦ inr (refl, stuck, there) ];
  whole = elim l.dest_kept [
    | inl kept ↦ inr (inl (refl, kept))
    | inr (no_dir, partial, moved) ↦ inr (inr (refl, no_dir, partial, moved))
  ];
}

place_of : {A B C : Type 0} → (A × B) ⊎ C → A ⊎ C
place_of (inl (a, b)) = inl a
place_of (inr c) = inr c

-- The file in place, and the partial file that was its basis removed.
moved-IsWhole :
    (faults : Faults) (store moved : Store) (tmp_path dest_path : Bytes) (ropts : ReceiverOptions)
    (rel_path : Bytes) (used_partial_basis : Bool)
    → same_bytes tmp_path dest_path ≡ false
    → ((ropts.partial_dir ≡ []) × (used_partial_basis ≡ false))
      ⊎ Elsewhere tmp_path dest_path ropts.partial_dir rel_path
    → IsMoved store moved tmp_path dest_path
    → IsWhole faults store tmp_path dest_path ropts (
        if used_partial_basis
        then (
          true,
          remove faults.remove_basis_fails moved
              (partial_file_path dest_path ropts.partial_dir rel_path),
        )
        else (true, moved))
moved-IsWhole faults store moved tmp_path dest_path ropts rel_path false apart place m = record {
  gone = inl (m.free (same_bytes-false tmp_path dest_path apart));
  whole = inl (refl, m.arrived);
}
moved-IsWhole faults store moved tmp_path dest_path ropts rel_path true apart (inl (no_dir, unused))
      m =
    absurd (cc unused)
moved-IsWhole faults store moved tmp_path dest_path ropts rel_path true apart
      (inr (from_tmp, from_dest)) m =
    let target = partial_file_path dest_path ropts.partial_dir rel_path in
    record {
      gone = inl (
          remove-other faults.remove_basis_fails moved target tmp_path from_tmp
          ∙ m.free (same_bytes-false tmp_path dest_path apart));
      whole = inl (
        refl,
        remove-other faults.remove_basis_fails moved target dest_path from_dest ∙ m.arrived,
      );
    }

-- Behind the writing of a file, whichever calls fail, the temporary file is gone, unless the file
-- does not count as written and removing the temporary file failed. The destination is whole: it
-- has the temporary file's content if the file counts as written, and what it had before if not,
-- unless partial files are kept without a directory of their own, when it may have the temporary
-- file's content too. The temporary file is not the destination, and the path of the partial file
-- is neither; a partial file that was the basis came from there.
pub finish_regular_file_write-IsWhole :
    (faults : Faults) (store : Store) (tmp_path dest_path : Bytes) (written : Bool)
    (ropts : ReceiverOptions) (rel_path : Bytes) (used_partial_basis : Bool)
    → same_bytes tmp_path dest_path ≡ false
    → ((ropts.partial_dir ≡ []) × (used_partial_basis ≡ false))
      ⊎ Elsewhere tmp_path dest_path ropts.partial_dir rel_path
    → IsWhole faults store tmp_path dest_path ropts (
        finish_regular_file_write faults store tmp_path dest_path written ropts rel_path
          used_partial_basis)
unfolding finish_regular_file_write
finish_regular_file_write-IsWhole faults store tmp_path dest_path false ropts rel_path
      used_partial_basis apart place =
    left-IsWhole faults store _ tmp_path dest_path ropts
      (abandon_or_keep-IsLeft faults store tmp_path dest_path ropts rel_path apart (place_of place))
finish_regular_file_write-IsWhole faults store tmp_path dest_path true ropts rel_path
      used_partial_basis apart place =
    elim (Option-cases (rename faults.rename_fails store tmp_path dest_path)) [
      | inl failed ↦
          rw (failed, finish_regular_file_write)
            (left-IsWhole faults store _ tmp_path dest_path ropts (
              abandon_or_keep-IsLeft faults store tmp_path dest_path ropts rel_path apart
                (place_of place)))
      | inr (moved, done) ↦
          rw (done, finish_regular_file_write)
            (moved-IsWhole faults store moved tmp_path dest_path ropts rel_path used_partial_basis
              apart place (rename-IsMoved faults.rename_fails store moved tmp_path dest_path done))
    ]
