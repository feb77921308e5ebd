-- ===== src/HardLinks/Found.antt =====
-- What the map of keys to paths holds, and what its sorted groups keep of it.
use mathlib.Core.List.{Memᴰ}
use mathlib.Core.List.Memᴰ
use grsync.Base.{
  ◌≤◌, ◌≡◌, ◌≢◌, refl, sym, ◌∙◌, arith, inl, inr, Bool-cases, ==_iff, true, List, [], ◌∷◌, Bytes,
  length, ltb, ltb-false, if◌then◌else◌,
}
use grsync.Base.Sorting.{le_text, insert_text, sort_texts}
use grsync.HardLinks.{
  HardLinkKey, same_key, Groups, add_path, linked_groups, first_path, insert_group, sort_groups,
}

-- Sorting loses no member.
insert_text-Memᴰ :
    (x s : Bytes) (texts : List Bytes) → Memᴰ x (s ∷ texts) → Memᴰ x (insert_text s texts)
unfolding insert_text
insert_text-Memᴰ x s [] h = h
insert_text-Memᴰ x s (t ∷ texts) h = elim (Bool-cases (le_text s t)) [
  | inl first ↦ rw first h
  | inr later ↦ rw later (elim (Memᴰ.cases_cons h) [
    | inl e ↦ Memᴰ.tail (insert_text-Memᴰ x s texts (Memᴰ.head e))
    | inr rest ↦ elim (Memᴰ.cases_cons rest) [
      | inl e ↦ Memᴰ.head e
      | inr deep ↦ Memᴰ.tail (insert_text-Memᴰ x s texts (Memᴰ.tail deep))
    ]
  ])
]

pub sort_texts-Memᴰ : (x : Bytes) (texts : List Bytes) → Memᴰ x texts → Memᴰ x (sort_texts texts)
unfolding sort_texts
sort_texts-Memᴰ x [] h = h
sort_texts-Memᴰ x (s ∷ texts) h =
    insert_text-Memᴰ x s (sort_texts texts) (elim (Memᴰ.cases_cons h) [
      | inl e ↦ Memᴰ.head e
      | inr rest ↦ Memᴰ.tail (sort_texts-Memᴰ x texts rest)
    ])

insert_group-Memᴰ :
    (x g : List Bytes) (groups : List (List Bytes))
    → Memᴰ x (g ∷ groups)
    → Memᴰ x (insert_group g groups)
unfolding insert_group
insert_group-Memᴰ x s [] h = h
insert_group-Memᴰ x s (t ∷ groups) h = elim (Bool-cases (le_text (first_path s) (first_path t))) [
  | inl first ↦ rw first h
  | inr later ↦ rw later (elim (Memᴰ.cases_cons h) [
    | inl e ↦ Memᴰ.tail (insert_group-Memᴰ x s groups (Memᴰ.head e))
    | inr rest ↦ elim (Memᴰ.cases_cons rest) [
      | inl e ↦ Memᴰ.head e
      | inr deep ↦ Memᴰ.tail (insert_group-Memᴰ x s groups (Memᴰ.tail deep))
    ]
  ])
]

pub sort_groups-Memᴰ :
    (x : List Bytes) (groups : List (List Bytes)) → Memᴰ x groups → Memᴰ x (sort_groups groups)
unfolding sort_groups
sort_groups-Memᴰ x [] h = h
sort_groups-Memᴰ x (g ∷ groups) h =
    insert_group-Memᴰ x g (sort_groups groups) (elim (Memᴰ.cases_cons h) [
      | inl e ↦ Memᴰ.head e
      | inr rest ↦ Memᴰ.tail (sort_groups-Memᴰ x groups rest)
    ])

pub several :
    (x y : Bytes) (paths : List Bytes) → x ≢ y → Memᴰ x paths → Memᴰ y paths → 2 ≤ length paths
several x y [] different one other = absurd (Memᴰ.not-nil one)
several x y (p ∷ []) different one other =
    absurd (different (Memᴰ.eq_of_singleton one ∙ sym (Memᴰ.eq_of_singleton other)))
several x y (p ∷ q ∷ paths) different one other = omega arith

same_key_refl : (k : HardLinkKey) → same_key k k ≡ true
unfolding same_key
same_key_refl k = rw ((==_iff k.dev k.dev).1 refl, (==_iff k.ino k.ino).1 refl) refl

-- What a map holds for a key.
unfoldable pub paths_of : HardLinkKey → Groups → List Bytes
paths_of key [] = []
paths_of key ((k, paths) ∷ groups) =
    let rest = paths_of key groups in if same_key k key then paths else rest

pub add_path-Memᴰ :
    (key : HardLinkKey) (path : Bytes) (groups : Groups)
    → Memᴰ path (paths_of key (add_path key path groups))
unfolding add_path paths_of
add_path-Memᴰ key path [] = rw (same_key_refl key) (Memᴰ.head refl)
add_path-Memᴰ key path ((k, paths) ∷ groups) = elim (Bool-cases (same_key k key)) [
  | inl same ↦ rw (same, same) (Memᴰ.append_right paths (Memᴰ.head refl))
  | inr other ↦ rw (other, other) (add_path-Memᴰ key path groups)
]

pub add_path_keeps :
    (key k : HardLinkKey) (x path : Bytes) (groups : Groups)
    → Memᴰ x (paths_of key groups)
    → Memᴰ x (paths_of key (add_path k path groups))
unfolding add_path paths_of
add_path_keeps key k x path [] h = absurd (Memᴰ.not-nil h)
add_path_keeps key k x path ((k', paths) ∷ groups) h = elim (Bool-cases (same_key k' k)) [
  | inl added ↦ elim (Bool-cases (same_key k' key)) [
    | inl same ↦ rw (added, same) (Memᴰ.append_left (path ∷ []) (rw (same) at h))
    | inr other ↦ rw (added, other) (rw (other) at h)
  ]
  | inr passed ↦ elim (Bool-cases (same_key k' key)) [
    | inl same ↦ rw (passed, same) (rw (same) at h)
    | inr other ↦ rw (passed, other) (add_path_keeps key k x path groups (rw (other) at h))
  ]
]

pub linked_groups-Memᴰ :
    (key : HardLinkKey) (groups : Groups)
    → 2 ≤ length (paths_of key groups)
    → Memᴰ (sort_texts (paths_of key groups)) (linked_groups groups)
unfolding linked_groups paths_of
linked_groups-Memᴰ key [] h = absurd (omega arith)
linked_groups-Memᴰ key ((k, paths) ∷ groups) h = elim (Bool-cases (same_key k key)) [
  | inl same ↦ rw (same, ltb-false (length paths) 2 (rw (same) at h)) (Memᴰ.head refl)
  | inr other ↦ elim (Bool-cases (ltb (length paths) 2)) [
    | inl single ↦ rw (other, single) (linked_groups-Memᴰ key groups (rw (other) at h))
    | inr several ↦
        rw (other, several) (Memᴰ.tail (linked_groups-Memᴰ key groups (rw (other) at h)))
  ]
]
