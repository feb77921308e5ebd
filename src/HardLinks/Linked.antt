-- ===== src/HardLinks/Linked.antt =====
-- Which paths stand together in a group of hard links.
use mathlib.Core.List.{Memᴰ}
use mathlib.Core.List.Memᴰ
use grsync.Base.{
  ◌≡◌, ◌≢◌, ◌↔◌, sym, ap, ◌∙◌, inl, inr, Bool-cases, Option-cases, false, ◌||◌, Option, none, some,
  List, [], ◌∷◌, Bytes, All, ok, bind-eq-ok, ok_injective, some_injective,
}
use grsync.Base.Sorting.{sort_texts}
use grsync.Entry.{FileEntry, is_symlink}
use grsync.HardLinks.{
  HardLinkKey, Groups, add_entry, collect_groups, linked_groups, sort_groups, detect_hard_links,
}
use grsync.HardLinks.Members.{IsLinked, detect_hard_links-IsLinked}
use grsync.HardLinks.Found.{
  sort_texts-Memᴰ, sort_groups-Memᴰ, several, paths_of, add_path-Memᴰ, add_path_keeps,
  linked_groups-Memᴰ,
}

All-Memᴰ {ℓ κ} : {A : Type ℓ} (P : A → Type κ) (x : A) (xs : List A) → All P xs → Memᴰ x xs → P x
All-Memᴰ P x [] all m = absurd (Memᴰ.not-nil m)
All-Memᴰ P x (y ∷ xs) (h, all) m = elim (Memᴰ.cases_cons m) [
  | inl e ↦ rw e h
  | inr rest ↦ All-Memᴰ P x xs all rest
]

module _ (lookup : Bytes → Option (Option HardLinkKey)) where
  -- Neither a directory nor a symbolic link, and with a key.
  pub record IsRegular (entry : FileEntry) (key : HardLinkKey) : Type 0 where
    pub regular : (entry.is_dir || is_symlink entry) ≡ false
    pub found : lookup entry.path ≡ some (some key)

  add_entry-Memᴰ :
      (entry : FileEntry) (key : HardLinkKey) (groups next : Groups)
      → IsRegular entry key
      → add_entry lookup entry groups ≡ ok next
      → Memᴰ entry.path (paths_of key next)
  unfolding add_entry
  add_entry-Memᴰ entry key groups next facts h =
      rw (← ok_injective (rw (facts.regular, facts.found, add_entry) at h))
        (add_path-Memᴰ key entry.path groups)

  add_entry_keeps :
      (entry : FileEntry) (key : HardLinkKey) (x : Bytes) (groups next : Groups)
      → add_entry lookup entry groups ≡ ok next
      → Memᴰ x (paths_of key groups)
      → Memᴰ x (paths_of key next)
  unfolding add_entry
  add_entry_keeps entry key x groups next h m =
      elim (Bool-cases (entry.is_dir || is_symlink entry)) [
        | inl passed ↦ rw (← ok_injective (rw (passed, add_entry) at h)) m
        | inr regular ↦ elim (Option-cases (lookup entry.path)) [
          | inl missing ↦ absurd (cc (rw (regular, missing, add_entry) at h))
          | inr (none, found) ↦ rw (← ok_injective (rw (regular, found, add_entry) at h)) m
          | inr (some k, found) ↦
              rw (← ok_injective (rw (regular, found, add_entry) at h))
                (add_path_keeps key k x entry.path groups m)
        ]
      ]

  collect_groups_keeps :
      (entries : List FileEntry) (key : HardLinkKey) (x : Bytes) (groups result : Groups)
      → collect_groups lookup entries groups ≡ ok result
      → Memᴰ x (paths_of key groups)
      → Memᴰ x (paths_of key result)
  unfolding collect_groups
  collect_groups_keeps [] key x groups result h m = rw (← ok_injective h) m
  collect_groups_keeps (entry ∷ entries) key x groups result h m =
      let (next, one, rest) =
        bind-eq-ok (add_entry lookup entry groups) (λ next. collect_groups lookup entries next) h in
      collect_groups_keeps entries key x next result rest
        (add_entry_keeps entry key x groups next one m)

  collect_groups-Memᴰ :
      (entries : List FileEntry) (entry : FileEntry) (key : HardLinkKey) (groups result : Groups)
      → Memᴰ entry entries
      → IsRegular entry key
      → collect_groups lookup entries groups ≡ ok result
      → Memᴰ entry.path (paths_of key result)
  unfolding collect_groups
  collect_groups-Memᴰ [] entry key groups result m facts h = absurd (Memᴰ.not-nil m)
  collect_groups-Memᴰ (e ∷ entries) entry key groups result m facts h =
      let (next, one, rest) =
        bind-eq-ok (add_entry lookup e groups) (λ next. collect_groups lookup entries next) h in
      elim (Memᴰ.cases_cons m) [
        | inl same ↦ collect_groups_keeps entries key entry.path next result rest (
            rw (ap (λ (x : FileEntry). x.path) same)
              (add_entry-Memᴰ e key groups next (rw same at facts) one))
        | inr later ↦ collect_groups-Memᴰ entries entry key next result later facts rest
      ]

  pub record IsTogether (x y : Bytes) (groups : List (List Bytes)) : Type 0 where
    pub group : List Bytes
    pub returned : Memᴰ group groups
    pub one : Memᴰ x group
    pub other : Memᴰ y group

  detect_hard_links-IsTogether :
      (entries : List FileEntry) (e f : FileEntry) (key : HardLinkKey) (groups : List (List Bytes))
      → detect_hard_links lookup entries ≡ ok groups
      → Memᴰ e entries
      → Memᴰ f entries
      → e.path ≢ f.path
      → IsRegular e key
      → IsRegular f key
      → IsTogether e.path f.path groups
  unfolding detect_hard_links
  detect_hard_links-IsTogether entries e f key groups h in_e in_f different at_e at_f =
      let (keyed, collected, rest) =
        bind-eq-ok (collect_groups lookup entries [])
          (λ keyed. ok (sort_groups (linked_groups keyed))) h in
      let one = collect_groups-Memᴰ entries e key [] keyed in_e at_e collected in
      let other = collect_groups-Memᴰ entries f key [] keyed in_f at_f collected in
      let group = sort_texts (paths_of key keyed) in
      record {
        group = group;
        returned = rw (← ok_injective rest) (
            sort_groups-Memᴰ group (linked_groups keyed) (
              linked_groups-Memᴰ key keyed
                (several e.path f.path (paths_of key keyed) different one other)));
        one = sort_texts-Memᴰ e.path (paths_of key keyed) one;
        other = sort_texts-Memᴰ f.path (paths_of key keyed) other;
      }

  -- Take two regular files of the list that have a key each, and different paths. Where
  -- DetectHardLinks returns groups, the two stand together in one of them if and only if their keys
  -- are the same.
  pub detect_hard_links_iff :
      (entries : List FileEntry) (e f : FileEntry) (k key : HardLinkKey)
      (groups : List (List Bytes))
      → detect_hard_links lookup entries ≡ ok groups
      → Memᴰ e entries
      → Memᴰ f entries
      → e.path ≢ f.path
      → IsRegular e k
      → IsRegular f key
      → IsTogether e.path f.path groups ↔ (k ≡ key)
  detect_hard_links_iff entries e f k key groups h in_e in_f different at_e at_f = (
    λ together.
        let linked =
          All-Memᴰ (IsLinked lookup) together.group groups
            (detect_hard_links-IsLinked lookup entries groups h) together.returned in
        let one =
          All-Memᴰ (λ p. lookup p ≡ some (some linked.key)) e.path together.group linked.linked
            together.one in
        let other =
          All-Memᴰ (λ p. lookup p ≡ some (some linked.key)) f.path together.group linked.linked
            together.other in
        some_injective (some_injective (sym at_e.found ∙ one ∙ sym other ∙ at_f.found)),
    λ same.
        detect_hard_links-IsTogether entries e f key groups h in_e in_f different
          (record {
            regular = at_e.regular;
            found = at_e.found ∙ ap (λ (n : HardLinkKey). some (some n)) same;
          })
          at_f,
  )
