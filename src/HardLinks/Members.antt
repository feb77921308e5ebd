-- ===== src/HardLinks/Members.antt =====
-- What stands in a group of hard links.
use grsync.Base.{
  ℕ, ◌≤◌, ◌≡◌, sym, ap, ◌∙◌, inl, inr, Bool-cases, Option-cases, ==_iff, true, ◌||◌, Option, none,
  some, List, [], ◌∷◌, Bytes, length, All, All-append, ltb, not_ltb, ◌==◌, ok, bind-eq-ok,
  ok_injective,
}
use grsync.Base.Sorting.{le_text, length-sort_texts, All-sort_texts}
use grsync.Entry.{FileEntry, is_symlink}
use grsync.HardLinks.{
  HardLinkKey, same_key, Groups, add_path, add_entry, collect_groups, linked_groups, first_path,
  insert_group, sort_groups, detect_hard_links,
}

abbrev made_key : ℕ → ℕ → HardLinkKey
made_key dev ino = record { dev = dev; ino = ino }

same_key-eq : (k key : HardLinkKey) → same_key k key ≡ true → k ≡ key
unfolding same_key
same_key-eq k key h = elim (Bool-cases (k.dev == key.dev)) [
  | inl devs ↦
      ap (λ d. made_key d k.ino) ((==_iff k.dev key.dev).0 devs)
      ∙ ap (made_key key.dev) ((==_iff k.ino key.ino).0 (rw (devs) at h))
  | inr others ↦ absurd (cc (rw (others) at h))
]

module _ (lookup : Bytes → Option (Option HardLinkKey)) where
  abbrev HasKey : HardLinkKey → Bytes → Type 0
  HasKey key path = lookup path ≡ some (some key)

  -- Paths that are links of one file, two at least.
  pub record IsLinked (group : List Bytes) : Type 0 where
    pub key : HardLinkKey
    pub linked : All (λ (path : Bytes). lookup path ≡ some (some key)) group
    pub several : 2 ≤ length group

  abbrev Keyed : Groups → Type 0
  Keyed groups = All (λ (g : HardLinkKey × List Bytes). All (HasKey g.0) g.1) groups

  add_path-Keyed :
      (key : HardLinkKey) (path : Bytes) (groups : Groups)
      → HasKey key path
      → Keyed groups
      → Keyed (add_path key path groups)
  unfolding add_path
  add_path-Keyed key path [] h all = ((h, tt), tt)
  add_path-Keyed key path ((k, paths) ∷ groups) h (one, all) = elim (Bool-cases (same_key k key)) [
    | inl same ↦ rw same (
      All-append (HasKey k) paths (path ∷ []) one
          (h ∙ ap (λ (n : HardLinkKey). some (some n)) (sym (same_key-eq k key same)), tt),
      all,
    )
    | inr other ↦ rw other (one, add_path-Keyed key path groups h all)
  ]

  add_entry-Keyed :
      (entry : FileEntry) (groups next : Groups)
      → add_entry lookup entry groups ≡ ok next
      → Keyed groups
      → Keyed next
  unfolding add_entry
  add_entry-Keyed entry groups next h all = elim (Bool-cases (entry.is_dir || is_symlink entry)) [
    | inl passed ↦ rw (← ok_injective (rw (passed, add_entry) at h)) all
    | inr regular ↦ elim (Option-cases (lookup entry.path)) [
      | inl missing ↦ absurd (cc (rw (regular, missing, add_entry) at h))
      | inr (none, found) ↦ rw (← ok_injective (rw (regular, found, add_entry) at h)) all
      | inr (some key, found) ↦
          rw (← ok_injective (rw (regular, found, add_entry) at h))
            (add_path-Keyed key entry.path groups found all)
    ]
  ]

  collect_groups-Keyed :
      (entries : List FileEntry) (groups result : Groups)
      → collect_groups lookup entries groups ≡ ok result
      → Keyed groups
      → Keyed result
  unfolding collect_groups
  collect_groups-Keyed [] groups result h all = rw (← ok_injective h) all
  collect_groups-Keyed (entry ∷ entries) groups result h all =
      let (next, one, rest) =
        bind-eq-ok (add_entry lookup entry groups) (λ next. collect_groups lookup entries next) h in
      collect_groups-Keyed entries next result rest (add_entry-Keyed entry groups next one all)

  linked_groups-IsLinked : (groups : Groups) → Keyed groups → All IsLinked (linked_groups groups)
  unfolding linked_groups
  linked_groups-IsLinked [] all = tt
  linked_groups-IsLinked ((key, paths) ∷ groups) (one, all) =
      elim (Bool-cases (ltb (length paths) 2)) [
        | inl single ↦ rw single (linked_groups-IsLinked groups all)
        | inr several ↦ rw several (
          record {
            key = key;
            linked = All-sort_texts (HasKey key) paths one;
            several = rw (length-sort_texts paths) (not_ltb (length paths) 2 several);
          },
          linked_groups-IsLinked groups all,
        )
      ]

  insert_group-IsLinked :
      (group : List Bytes) (groups : List (List Bytes))
      → IsLinked group
      → All IsLinked groups
      → All IsLinked (insert_group group groups)
  unfolding insert_group
  insert_group-IsLinked group [] h all = (h, tt)
  insert_group-IsLinked group (g ∷ groups) h (k, all) =
      elim (Bool-cases (le_text (first_path group) (first_path g))) [
        | inl first ↦ rw (first, insert_group) (h, (k, all))
        | inr later ↦ rw (later, insert_group) (k, insert_group-IsLinked group groups h all)
      ]

  sort_groups-IsLinked :
      (groups : List (List Bytes)) → All IsLinked groups → All IsLinked (sort_groups groups)
  unfolding sort_groups
  sort_groups-IsLinked [] all = tt
  sort_groups-IsLinked (group ∷ groups) (h, all) =
      insert_group-IsLinked group (sort_groups groups) h (sort_groups-IsLinked groups all)

  -- Every group that DetectHardLinks returns has two paths at least, all of them links of one file.
  pub detect_hard_links-IsLinked :
      (entries : List FileEntry) (groups : List (List Bytes))
      → detect_hard_links lookup entries ≡ ok groups
      → All IsLinked groups
  unfolding detect_hard_links
  detect_hard_links-IsLinked entries groups h =
      let (keyed, collected, rest) =
        bind-eq-ok (collect_groups lookup entries [])
          (λ keyed. ok (sort_groups (linked_groups keyed))) h in
      rw (← ok_injective rest) (
        sort_groups-IsLinked (linked_groups keyed)
          (linked_groups-IsLinked keyed (collect_groups-Keyed entries [] keyed collected tt)))
