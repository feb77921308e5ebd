-- ===== src/Attributes/Laws.antt =====
-- What the calls of the operating system do when they succeed, and so ApplyAttributes.
use grsync.Base.{
  ℕ, ◌≡◌, refl, ap, ◌∙◌, sym, Bool, true, false, not, ◌&&◌, ◌⊎◌, arith, inl, inr, Bool-cases,
  Option, none, some, if◌then◌else◌, Result, ok, bind-eq-ok, ok_injective, ◌>>=◌,
}
use grsync.Base.Int.{ℤ}
use grsync.Entry.{FileEntry, is_symlink, perm, AttrOptions}
use grsync.Attributes.{
  System, AttrError, applying_permissions, applying_time, applying_ownership, AttrResult, or_error,
  apply_perms, apply_times, apply_ownership, apply_mode_and_time, report_of, apply_attributes,
}

abbrev pub or_kept : Option ℕ → ℕ → ℕ
or_kept none kept = kept
or_kept (some id) kept = id

-- A system that does what these calls are for, on a file system that keeps times to the nanosecond.
-- A change of ownership may clear bits of the mode, but not permission bits.
pub record IsSystem (os : System) : Type 0 where
  pub chmod_law :
      (mode : ℕ) (e e' : FileEntry)
      → os.chmod mode e ≡ some e'
      → (perm e'.mode ≡ perm mode) × (e' ≡ record e { mode = e'.mode })
  pub chtimes_law :
      (time : ℤ) (e e' : FileEntry)
      → os.chtimes time e ≡ some e'
      → e' ≡ record e { mod_time = time }
  pub lchown_law :
      (uid gid : Option ℕ) (e e' : FileEntry)
      → os.lchown uid gid e ≡ some e'
      → (perm e'.mode ≡ perm e.mode)
        × (e' ≡ record e { uid = or_kept uid e.uid; gid = or_kept gid e.gid; mode = e'.mode })

-- The attributes that are asked for agree, the owners where they are known.
pub record IsSettled (entry : FileEntry) (opts : AttrOptions) (dest : FileEntry) : Type 0 where
  pub same_perms : (opts.perms ≡ false) ⊎ (perm dest.mode ≡ perm entry.mode)
  pub same_times : (opts.times ≡ false) ⊎ (dest.mod_time ≡ entry.mod_time)
  pub same_owner : (opts.owner && entry.ownership_available ≡ false) ⊎ (dest.uid ≡ entry.uid)
  pub same_group : (opts.group && entry.ownership_available ≡ false) ⊎ (dest.gid ≡ entry.gid)

or_error-ok : {A : Type 0} (e : AttrError) (o : Option A) (a : A) → or_error e o ≡ ok a → o ≡ some a
or_error-ok e none a h = absurd (cc h)
or_error-ok e (some b) a h = cc

perm-perm : (mode : ℕ) → perm (perm mode) ≡ perm mode
unfolding perm
perm-perm mode = omega arith

-- An entry whose owners are changed as they are asked for, where they are known.
record IsOwned (entry : FileEntry) (owner group : Bool) (dest next : FileEntry) : Type 0 where
  pub kept_perms : perm next.mode ≡ perm dest.mode
  pub rest : next ≡ record dest { uid = next.uid; gid = next.gid; mode = next.mode }
  pub owned : (owner && entry.ownership_available ≡ false) ⊎ (next.uid ≡ entry.uid)
  pub grouped : (group && entry.ownership_available ≡ false) ⊎ (next.gid ≡ entry.gid)

and_false : (b : Bool) → (b && false) ≡ false
and_false true = refl
and_false false = refl

module _ (os : System) (law : IsSystem os) where
  perms_applied_lem :
      (asked : Bool) (mode : ℕ) (dest next : FileEntry)
      → (if asked then apply_perms os mode dest else ok dest) ≡ ok next
      → ((asked ≡ false) ⊎ (perm next.mode ≡ perm mode)) × (next ≡ record dest { mode = next.mode })
  unfolding apply_perms
  perms_applied_lem true mode dest next h =
      let (same, rest) =
        law.chmod_law (perm mode) dest next
          (or_error-ok applying_permissions (os.chmod (perm mode) dest) next h) in
      (inr (same ∙ perm-perm mode), rest)
  perms_applied_lem false mode dest next h = (inl refl, rw (sym (ok_injective h)) refl)

  times_applied_lem :
      (asked : Bool) (time : ℤ) (dest next : FileEntry)
      → (if asked then apply_times os time dest else ok dest) ≡ ok next
      → ((asked ≡ false) ⊎ (next.mod_time ≡ time))
        × (next ≡ record dest { mod_time = next.mod_time })
  unfolding apply_times
  times_applied_lem true time dest next h =
      let eq =
        law.chtimes_law time dest next (or_error-ok applying_time (os.chtimes time dest) next h) in
      (inr (ap (λ (e : FileEntry). e.mod_time) eq), rw eq refl)
  times_applied_lem false time dest next h = (inl refl, rw (sym (ok_injective h)) refl)

  -- Ownership that is left alone: it is not asked for, or not known.
  owner-kept :
      (entry : FileEntry) (owner group : Bool) (dest : FileEntry) (flags : Bool × Bool)
      (result : FileEntry × (Bool × Bool))
      → (owner && entry.ownership_available) ≡ false
      → (group && entry.ownership_available) ≡ false
      → ◌≡◌ {A = Result AttrError (FileEntry × (Bool × Bool))} (ok (dest, flags)) (ok result)
      → IsOwned entry owner group dest result.0
  owner-kept entry owner group dest flags result o g h =
      rw (sym (ok_injective h))
        (record { kept_perms = refl; rest = refl; owned = inl o; grouped = inl g })

  owner-changed :
      (entry : FileEntry) (owner group : Bool) (dest next : FileEntry)
      → os.lchown
          (if owner then some entry.uid else none)
          (if group then some entry.gid else none)
          dest
        ≡ some next
      → IsOwned entry owner group dest next
  owner-changed entry true true dest next h =
      let (same, eq) = law.lchown_law (some entry.uid) (some entry.gid) dest next h in
      record {
        kept_perms = same;
        rest = rw eq refl;
        owned = inr (ap (λ (e : FileEntry). e.uid) eq);
        grouped = inr (ap (λ (e : FileEntry). e.gid) eq);
      }
  owner-changed entry true false dest next h =
      let (same, eq) = law.lchown_law (some entry.uid) none dest next h in
      record {
        kept_perms = same;
        rest = rw eq refl;
        owned = inr (ap (λ (e : FileEntry). e.uid) eq);
        grouped = inl refl;
      }
  owner-changed entry false true dest next h =
      let (same, eq) = law.lchown_law none (some entry.gid) dest next h in
      record {
        kept_perms = same;
        rest = rw eq refl;
        owned = inl refl;
        grouped = inr (ap (λ (e : FileEntry). e.gid) eq);
      }
  owner-changed entry false false dest next h =
      let (same, eq) = law.lchown_law none none dest next h in
      record { kept_perms = same; rest = rw eq refl; owned = inl refl; grouped = inl refl }

  known_or_not :
      (entry : FileEntry) (owner group : Bool) (dest : FileEntry)
      (result : FileEntry × (Bool × Bool))
      → (if not entry.ownership_available
          then ok (dest, (false, true))
          else (or_error applying_ownership (
                os.lchown
                  (if owner then some entry.uid else none)
                  (if group then some entry.gid else none)
                  dest)
              >>= (λ next. ok (next, (true, false)))))
        ≡ ok result
      → IsOwned entry owner group dest result.0
  known_or_not entry owner group dest result h = elim (Bool-cases entry.ownership_available) [
    | inr unknown ↦
        owner-kept entry owner group dest (false, true) result (rw unknown (and_false owner))
          (rw unknown (and_false group)) (rw unknown at h)
    | inl known ↦
        let changed = or_error applying_ownership (
          os.lchown (if owner then some entry.uid else none)
            (if group then some entry.gid else none) dest) in
        let (next, done, eq) =
          bind-eq-ok changed (λ next. ok (next, (true, false))) (rw known at h) in
        rw (← ok_injective eq) (
          owner-changed entry owner group dest next (
            or_error-ok applying_ownership
              (os.lchown (if owner then some entry.uid else none)
                (if group then some entry.gid else none) dest)
              next done))
  ]

  apply_ownership-IsOwned :
      (entry : FileEntry) (owner group : Bool) (dest : FileEntry)
      (result : FileEntry × (Bool × Bool))
      → apply_ownership os entry owner group dest ≡ ok result
      → IsOwned entry owner group dest result.0
  unfolding apply_ownership
  apply_ownership-IsOwned entry false false dest result h =
      owner-kept entry false false dest (false, false) result refl refl h
  apply_ownership-IsOwned entry true group dest result h =
      known_or_not entry true group dest result h
  apply_ownership-IsOwned entry false true dest result h =
      known_or_not entry false true dest result h

  -- What `ApplyAttributes` leaves at a path that is no symbolic link: the attributes that are asked
  -- for agree, and the size is what it was.
  pub apply_attributes-IsSettled :
      (entry : FileEntry) (opts : AttrOptions) (dest : FileEntry) (result : FileEntry × AttrResult)
      → is_symlink entry ≡ false
      → apply_attributes os entry opts dest ≡ ok result
      → IsSettled entry opts result.0 × (result.0.size ≡ dest.size)
  unfolding apply_attributes apply_mode_and_time
  apply_attributes-IsSettled entry opts dest result plain h =
      let (next, got, after) =
        bind-eq-ok (apply_mode_and_time os entry opts dest)
          (λ next.
            apply_ownership os entry opts.owner opts.group next
            >>= (λ owned. ok (owned.0, report_of os entry opts owned.1)))
          h in
      let (owned, got_owned, last) =
        bind-eq-ok (apply_ownership os entry opts.owner opts.group next)
          (λ owned. ok (owned.0, report_of os entry opts owned.1)) after in
      let (with_perms, got_perms, got_times) =
        bind-eq-ok (if opts.perms then apply_perms os entry.mode dest else ok dest)
          (λ with_perms.
            if opts.times then apply_times os entry.mod_time with_perms else ok with_perms)
          (rw (plain, apply_mode_and_time) at got) in
      let (perms_set, perms_eq) =
        perms_applied_lem opts.perms entry.mode dest with_perms got_perms in
      let (times_set, times_eq) =
        times_applied_lem opts.times entry.mod_time with_perms next got_times in
      let o = apply_ownership-IsOwned entry opts.owner opts.group next owned got_owned in
      rw (← ok_injective last) (
        record {
          same_perms = elim perms_set [
            | inl unasked ↦ inl unasked
            | inr same ↦ inr (o.kept_perms ∙ ap (λ (e : FileEntry). perm e.mode) times_eq ∙ same)
          ];
          same_times = elim times_set [
            | inl unasked ↦ inl unasked
            | inr same ↦ inr (ap (λ (e : FileEntry). e.mod_time) o.rest ∙ same)
          ];
          same_owner = o.owned;
          same_group = o.grouped;
        },
        ap (λ (e : FileEntry). e.size) o.rest
            ∙ ap (λ (e : FileEntry). e.size) times_eq
            ∙ ap (λ (e : FileEntry). e.size) perms_eq,
      )
