-- ===== src/Filter/Segments.antt =====
-- What it means that a path matches a pattern, element by element.
use grsync.Base.{
  ◌≡◌, ◌≢◌, ◌↔◌, ◌⊎◌, refl, Bool, true, false, ◌&&◌, ◌||◌, List, [], ◌∷◌, Bytes, Bool-cases, inl,
  inr, same_bytes, same_bytes→eq, same_bytes_refl,
}
use grsync.Glob.{path_match, after_some}
use grsync.Filter.{deep, match_segments}

-- `**` stands for any number of path elements, any other pattern element for one that it matches.
pub data SegmentsMatch : List Bytes → List Bytes → Type 0 where
  done : SegmentsMatch [] []
  deep_stops :
      {pattern path : List Bytes} → SegmentsMatch pattern path → SegmentsMatch (deep ∷ pattern) path
  deep_takes :
      {pattern path : List Bytes} {x : Bytes}
      → SegmentsMatch (deep ∷ pattern) path
      → SegmentsMatch (deep ∷ pattern) (x ∷ path)
  takes :
      {pattern path : List Bytes} {p x : Bytes}
      → p ≢ deep
      → path_match p x ≡ true
      → SegmentsMatch pattern path
      → SegmentsMatch (p ∷ pattern) (x ∷ path)

and-true : (a b : Bool) → a && b ≡ true → (a ≡ true) × (b ≡ true)
and-true true b h = (refl, h)
and-true false b h = absurd (cc h)

or-true : (a b : Bool) → a || b ≡ true → (a ≡ true) ⊎ (b ≡ true)
or-true true b h = inl refl
or-true false b h = inr h

or_true : (a b : Bool) → b ≡ true → a || b ≡ true
or_true true b h = refl
or_true false b h = h

-- The loop of a `**` in front of a pattern for which the matcher is right.
after_some_sound :
    (pattern : List Bytes)
    (sound : (path : List Bytes) → match_segments pattern path ≡ true → SegmentsMatch pattern path)
    (path : List Bytes)
    → after_some (λ _. true) (match_segments pattern) path ≡ true
    → SegmentsMatch (deep ∷ pattern) path
unfolding after_some
after_some_sound pattern sound [] h = deep_stops (sound [] h)
after_some_sound pattern sound (x ∷ path) h = elim (or-true _ _ h) [
  | inl here ↦ deep_stops (sound (x ∷ path) here)
  | inr later ↦ deep_takes (after_some_sound pattern sound path later)
]

not_deep : (p : Bytes) → same_bytes p deep ≡ false → p ≢ deep
not_deep p h e = let same : same_bytes p deep ≡ true = rw (← e) (same_bytes_refl p) in cc

match_segments_sound :
    (pattern path : List Bytes) → match_segments pattern path ≡ true → SegmentsMatch pattern path
unfolding match_segments
match_segments_sound [] [] h = done
match_segments_sound [] (x ∷ path) h = absurd (cc h)
match_segments_sound (p ∷ pattern) [] h = elim (Bool-cases (same_bytes p deep)) [
  | inl is_deep ↦ rw (same_bytes→eq p deep is_deep) (
      after_some_sound pattern (match_segments_sound pattern) []
        (rw (is_deep, match_segments) at h))
  | inr plain ↦ absurd (cc (rw (plain, match_segments) at h))
]
match_segments_sound (p ∷ pattern) (x ∷ path) h = elim (Bool-cases (same_bytes p deep)) [
  | inl is_deep ↦ rw (same_bytes→eq p deep is_deep) (
      after_some_sound pattern (match_segments_sound pattern) (x ∷ path)
        (rw (is_deep, match_segments) at h))
  | inr plain ↦
      let (one, rest) = and-true _ _ (rw (plain, match_segments) at h) in
      takes (not_deep p plain) one (match_segments_sound pattern path rest)
]

after_some-first :
    (rest : List Bytes → Bool) (path : List Bytes)
    → rest path ≡ true
    → after_some (λ _. true) rest path ≡ true
unfolding after_some
after_some-first rest [] h = h
after_some-first rest (x ∷ path) h = rw h refl

match_segments_complete :
    (pattern path : List Bytes) → SegmentsMatch pattern path → match_segments pattern path ≡ true
unfolding match_segments after_some
match_segments_complete _ _ done = refl
match_segments_complete _ path (deep_stops {pattern} m) =
    after_some-first (match_segments pattern) path (match_segments_complete pattern path m)
match_segments_complete _ _ (deep_takes {pattern} {path} {x} m) =
    or_true (match_segments pattern (x ∷ path)) _ (match_segments_complete (deep ∷ pattern) path m)
match_segments_complete _ _ (takes {pattern} {path} {p} {x} plain one m) =
    elim (Bool-cases (same_bytes p deep)) [
      | inl is_deep ↦ absurd (plain (same_bytes→eq p deep is_deep))
      | inr other ↦ rw (other, one, match_segments_complete pattern path m, match_segments) refl
    ]

-- The matcher accepts exactly the paths that match: each element of the pattern but `**` takes one
-- path element that path.Match accepts, and `**` takes any number.
pub match_segments_iff :
    (pattern path : List Bytes) → (match_segments pattern path ≡ true) ↔ SegmentsMatch pattern path
match_segments_iff pattern path =
    (match_segments_sound pattern path, match_segments_complete pattern path)
