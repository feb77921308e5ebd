-- ===== src/Base/Sorting.antt =====
-- `sort.Strings`, and what it keeps.
use Prim.Native.Nat.{suc}
use mathlib.Core.Path.{◌≡◌, refl, ap, ◌∙◌}
use mathlib.Core.Logic.{inl, inr}
use mathlib.Core.Bool.{Bool, true, false, ◌&&◌, ◌||◌}
use mathlib.Core.List.{List, [], ◌∷◌}
use grsync.Base.Tests.{◌==◌, ltb, if◌then◌else◌, Bool-cases}
use grsync.Base.Text.{Bytes}
use grsync.Base.Lists.{length, All}

-- `sort.Strings`: by bytes, from the first on.
unfoldable pub le_text : Bytes → Bytes → Bool
le_text [] t = true
le_text (x ∷ s) [] = false
le_text (x ∷ s) (y ∷ t) = ltb x y || ((x == y) && le_text s t)

unfoldable pub insert_text : Bytes → List Bytes → List Bytes
unfolding le_text
insert_text s [] = s ∷ []
insert_text s (t ∷ texts) = if le_text s t then s ∷ t ∷ texts else t ∷ insert_text s texts

unfoldable pub sort_texts : List Bytes → List Bytes
unfolding insert_text
sort_texts [] = []
sort_texts (s ∷ texts) = insert_text s (sort_texts texts)

pub length-insert_text :
    (s : Bytes) (texts : List Bytes) → length (insert_text s texts) ≡ suc (length texts)
unfolding insert_text
length-insert_text s [] = refl
length-insert_text s (t ∷ texts) = elim (Bool-cases (le_text s t)) [
  | inl first ↦ rw first refl
  | inr later ↦ rw later (ap suc (length-insert_text s texts))
]

pub length-sort_texts : (texts : List Bytes) → length (sort_texts texts) ≡ length texts
unfolding sort_texts
length-sort_texts [] = refl
length-sort_texts (s ∷ texts) =
    length-insert_text s (sort_texts texts) ∙ ap suc (length-sort_texts texts)

pub All-insert_text {κ} :
    (P : Bytes → Type κ) (s : Bytes) (texts : List Bytes)
    → P s
    → All P texts
    → All P (insert_text s texts)
unfolding insert_text
All-insert_text P s [] h all = (h, tt)
All-insert_text P s (t ∷ texts) h (k, all) = elim (Bool-cases (le_text s t)) [
  | inl first ↦ rw first (h, (k, all))
  | inr later ↦ rw later (k, All-insert_text P s texts h all)
]

pub All-sort_texts {κ} :
    (P : Bytes → Type κ) (texts : List Bytes) → All P texts → All P (sort_texts texts)
unfolding sort_texts
All-sort_texts P [] all = tt
All-sort_texts P (s ∷ texts) (h, all) =
    All-insert_text P s (sort_texts texts) h (All-sort_texts P texts all)
