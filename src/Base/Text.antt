-- ===== src/Base/Text.antt =====
-- Byte strings as lists of numbers, and the functions of Go's `strings` package that the code uses.
use Prim.Native.Nat.{ℕ, ◌+◌, ◌<◌}
use Prim.Native.Char.{code}
use Prim.Native.String.{String}
use mathlib.Core.Path.{◌≡◌, refl, ap}
use mathlib.Core.Bool.{Bool, true, false, ◌&&◌, ◌||◌}
use mathlib.Core.Option.{Option, none, some}
use mathlib.Core.List.{List, [], ◌∷◌, ◌++◌, map, reverse}
use native.Mathlib.Omega.{arith}
use grsync.Base.Tests.{◌==◌, ==_iff, leb, if◌then◌else◌, Bool-cases, Option-cases, some_injective}
use mathlib.Core.Logic.{inl, inr}

abbrev pub Bytes : Type 0
Bytes = List ℕ

abbrev pub IsByte : ℕ → Type 0
IsByte b = b < 256

-- The code points of a text: its bytes, as every constant of the program is ASCII.
abbrev pub codes : String → Bytes
codes String.[] = []
codes (String.◌∷◌ c s) = code c ∷ codes s

-- Go's `==` on strings and on byte arrays.
unfoldable pub same_bytes : Bytes → Bytes → Bool
same_bytes [] [] = true
same_bytes (x ∷ xs) (y ∷ ys) = (x == y) && same_bytes xs ys
same_bytes _ _ = false

pub same_bytes_refl : (s : Bytes) → same_bytes s s ≡ true
unfolding same_bytes
same_bytes_refl [] = refl
same_bytes_refl (x ∷ xs) = ground (arith, same_bytes_refl xs)

pub same_bytes→eq : (s t : Bytes) → same_bytes s t ≡ true → s ≡ t
unfolding same_bytes
same_bytes→eq [] [] h = refl
same_bytes→eq [] (y ∷ ys) h = cc
same_bytes→eq (x ∷ xs) [] h = cc
same_bytes→eq (x ∷ xs) (y ∷ ys) h = ground (arith, same_bytes→eq xs ys)

abbrev pub push_front : ℕ → List Bytes → List Bytes
push_front c [] = (c ∷ []) ∷ []
push_front c (part ∷ parts) = (c ∷ part) ∷ parts

-- `strings.Split` at a separator of one byte: one more part than there are separators.
unfoldable pub split_on : ℕ → Bytes → List Bytes
split_on sep [] = [] ∷ []
split_on sep (c ∷ s) = if c == sep then [] ∷ split_on sep s else push_front c (split_on sep s)

-- `strings.ToLower`, on ASCII.
unfoldable pub lower_byte : ℕ → ℕ
lower_byte c = if leb b'A' c && leb c b'Z' then c + 32 else c

unfoldable pub to_lower : Bytes → Bytes
unfolding lower_byte
to_lower s = map lower_byte s

-- `strings.HasPrefix`
unfoldable pub has_prefix : Bytes → Bytes → Bool
has_prefix s [] = true
has_prefix [] (p ∷ prefix) = false
has_prefix (c ∷ s) (p ∷ prefix) = (c == p) && has_prefix s prefix

-- `strings.Contains` of a byte, and the test of `strings.IndexByte` against -1.
unfoldable pub contains_byte : Bytes → ℕ → Bool
contains_byte [] b = false
contains_byte (c ∷ s) b = (c == b) || contains_byte s b

-- The white space of `strings.TrimSpace` and `strings.Fields`, on ASCII.
unfoldable pub is_space : ℕ → Bool
is_space c = (c == b' ') || (leb 9 c && leb c 13)

unfoldable pub trim_left : Bytes → Bytes
unfolding is_space
trim_left [] = []
trim_left (c ∷ s) = if is_space c then trim_left s else c ∷ s

-- `strings.TrimSpace`
unfoldable pub trim_space : Bytes → Bytes
unfolding trim_left
trim_space s = reverse (trim_left (reverse (trim_left s)))

-- `strings.HasSuffix` of one byte, and the text before it.
unfoldable pub ends_with : Bytes → ℕ → Bool
ends_with [] b = false
ends_with (c ∷ []) b = c == b
ends_with (c ∷ d ∷ s) b = ends_with (d ∷ s) b

unfoldable pub drop_last : Bytes → Bytes
drop_last [] = []
drop_last (c ∷ []) = []
drop_last (c ∷ d ∷ s) = c ∷ drop_last (d ∷ s)

-- `strings.Cut` at a byte: what stands before its first occurrence, and behind it.
unfoldable pub cut_byte : ℕ → Bytes → Option (Bytes × Bytes)
cut_byte b [] = none
cut_byte b (c ∷ s) =
    let rest = cut_byte b s in
    if c == b
    then some ([], s)
    else (elim rest [ none ↦ none | some (before, after) ↦ some (c ∷ before, after) ])

-- The format `%q`, on printable ASCII.
unfoldable pub escaped : Bytes → Bytes
escaped [] = []
escaped (c ∷ s) = if (c == b'"') || (c == b'\\') then b'\\' ∷ c ∷ escaped s else c ∷ escaped s

unfoldable pub quoted : Bytes → Bytes
unfolding escaped
quoted s = b'"' ∷ (escaped s ++ (b'"' ∷ []))

-- `strings.Contains`
unfoldable pub contains_text : Bytes → Bytes → Bool
unfolding has_prefix
contains_text [] text = has_prefix [] text
contains_text (c ∷ s) text = has_prefix (c ∷ s) text || contains_text s text

pub cut_byte-some :
    (b : ℕ) (s : Bytes) (part : Bytes × Bytes)
    → cut_byte b s ≡ some part
    → (s ≡ part.0 ++ (b ∷ part.1)) × (contains_byte part.0 b ≡ false)
unfolding cut_byte contains_byte
cut_byte-some b [] part h = absurd (cc h)
cut_byte-some b (c ∷ s) part h = elim (Bool-cases (c == b)) [
  | inl here ↦
      rw (← some_injective (rw (here, cut_byte) at h)) (ap (λ x. x ∷ s) ((==_iff c b).0 here), refl)
  | inr other ↦ elim (Option-cases (cut_byte b s)) [
    | inl absent ↦ absurd (cc (rw (other, absent, cut_byte) at h))
    | inr (found, cut) ↦
        let (text, lacks) = cut_byte-some b s found cut in
        rw (← some_injective (rw (other, cut, cut_byte) at h))
          (ap (◌∷◌ c) text, rw (other, lacks) refl)
  ]
]

pub cut_byte-append :
    (b : ℕ) (before after : Bytes)
    → contains_byte before b ≡ false
    → cut_byte b (before ++ (b ∷ after)) ≡ some (before, after)
unfolding cut_byte contains_byte
cut_byte-append b [] after h = ground arith
cut_byte-append b (c ∷ before) after h = elim (Bool-cases (c == b)) [
  | inl here ↦ absurd (cc (rw (here, contains_byte) at h))
  | inr other ↦ rw (other, cut_byte-append b before after (rw (other, contains_byte) at h)) refl
]

pub cut_byte-absent : (b : ℕ) (s : Bytes) → contains_byte s b ≡ false → cut_byte b s ≡ none
unfolding cut_byte contains_byte
cut_byte-absent b [] h = refl
cut_byte-absent b (c ∷ s) h = elim (Bool-cases (c == b)) [
  | inl here ↦ absurd (cc (rw (here, contains_byte) at h))
  | inr other ↦ rw (other, cut_byte-absent b s (rw (other, contains_byte) at h)) refl
]
