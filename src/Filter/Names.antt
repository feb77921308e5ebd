-- ===== src/Filter/Names.antt =====
-- Patterns that are a bare name.
use grsync.Base.{
  ℕ, ◌≡◌, refl, sym, ◌∙◌, Bool, true, false, not, ◌&&◌, ◌||◌, List, [], ◌∷◌, Bytes, Bool-cases, inl,
  inr, same_bytes, same_bytes→eq,
}
use grsync.Base.{◌==◌, if◌then◌else◌, split_on, contains_byte, has_prefix, ok}
use grsync.Glob.{path_match}
use grsync.Filter.{
  Action, Rule, deep, match_segments, match_any_depth, matches, contains_deep, compile_pattern,
}
use grsync.Filter.Compiled.{compile_pattern-IsCompiled}

or-false : (a b : Bool) → a || b ≡ false → (a ≡ false) × (b ≡ false)
or-false true b h = absurd (cc h)
or-false false b h = (refl, h)

split_on-absent : (s : Bytes) (b : ℕ) → contains_byte s b ≡ false → split_on b s ≡ s ∷ []
unfolding split_on contains_byte
split_on-absent [] b h = refl
split_on-absent (c ∷ s) b h =
    let (other, rest) = or-false (c == b) (contains_byte s b) h in
    rw (other, split_on-absent s b rest) refl

not_deep : (s : Bytes) → contains_deep s ≡ false → same_bytes s deep ≡ false
unfolding contains_deep has_prefix
not_deep s h = elim (Bool-cases (same_bytes s deep)) [
  | inr other ↦ other
  | inl is_deep ↦ absurd (cc (rw (same_bytes→eq s deep is_deep) at h))
]

-- The last path element.
abbrev pub last_segment : List Bytes → Bytes
last_segment [] = []
last_segment (x ∷ []) = x
last_segment (x ∷ y ∷ path) = last_segment (y ∷ path)

only_here : (b : Bool) → (if b && true then true else false) ≡ b
only_here true = refl
only_here false = refl

not_here : (a b : Bool) → (if a && false then true else b) ≡ b
not_here true b = refl
not_here false b = refl

match_any_depth-one :
    (p : Bytes) (path : List Bytes) (x : Bytes)
    → same_bytes p deep ≡ false
    → match_any_depth (p ∷ []) (x ∷ path) ≡ path_match p (last_segment (x ∷ path))
unfolding match_any_depth match_segments
match_any_depth-one p [] x other = rw other (only_here (path_match p x))
match_any_depth-one p (y ∷ path) x other =
    let deeper = rw other at (match_any_depth-one p path y other) in
    rw other (not_here (path_match p x) _ ∙ deeper)

split_on-cons : (s : Bytes) (b : ℕ) → (x : Bytes) × (rest : List Bytes) × (split_on b s ≡ x ∷ rest)
unfolding split_on
split_on-cons [] b = ([], [], refl)
split_on-cons (c ∷ s) b =
    let (x, rest, cut) = split_on-cons s b in
    elim (Bool-cases (c == b)) [
      | inl sep ↦ ([], split_on b s, rw sep refl)
      | inr other ↦ (c ∷ x, rest, rw (other, cut) refl)
    ]

-- The test for directories.
directory_test :
    (dir_only is_dir m : Bool)
    → (if dir_only && not is_dir then false else m) ≡ (not dir_only || is_dir) && m
directory_test true true m = refl
directory_test true false m = refl
directory_test false is_dir m = refl

-- A rule compiled from a pattern that is not anchored matches an entry, a directory if the pattern
-- asks for one, exactly if path.Match accepts the last element of its path, at whatever depth.
pub matches-bare :
    (action : Action) (pattern : Bytes) (r : Rule) (entry_path : Bytes) (is_dir : Bool)
    → compile_pattern action pattern ≡ ok r
    → r.anchored ≡ false
    → matches r entry_path is_dir
      ≡ (not r.dir_only || is_dir) && path_match r.pattern (last_segment (split_on b'/' entry_path))
unfolding matches
matches-bare action pattern r entry_path is_dir h bare =
    let made = compile_pattern-IsCompiled action pattern r h in
    let (marks, shallow) =
      or-false (made.leading || contains_byte r.pattern b'/') (contains_deep r.pattern)
        (sym made.anchor ∙ bare) in
    let (_, flat) = or-false made.leading (contains_byte r.pattern b'/') marks in
    let (x, rest, cut) = split_on-cons entry_path b'/' in
    rw
      (
        bare,
        split_on-absent r.pattern b'/' flat,
        cut,
        match_any_depth-one r.pattern rest x (not_deep r.pattern shallow),
        matches,
      )
      (directory_test r.dir_only is_dir _)
