-- ===== src/Base/Numbers.antt =====
-- `strconv.Atoi`, `strconv.FormatInt` and `strings.FieldsFunc`.
use Prim.Native.Nat.{ℕ, ◌+◌, ◌-◌, ◌*◌, ◌^◌}
use mathlib.Core.Bool.{Bool, true, false, ◌&&◌}
use mathlib.Core.Option.{Option, none, some}
use mathlib.Core.List.{List, [], ◌∷◌, ◌++◌}
use grsync.Base.Tests.{◌==◌, ltb, leb, if◌then◌else◌}
use grsync.Base.Text.{Bytes}
use grsync.Base.Int.{ℤ, pos, negsuc}

-- The value of decimal digits behind those read so far.
unfoldable pub digits_value : ℕ → Bytes → Option ℕ
digits_value value [] = some value
digits_value value (c ∷ s) =
    let rest = digits_value (value * 10 + (c - b'0')) s in
    if leb b'0' c && leb c b'9' then rest else none

unfoldable pub unsigned : Bytes → Option ℕ
unfolding digits_value
unsigned [] = none
unsigned (c ∷ s) = digits_value 0 (c ∷ s)

-- An optional sign and at least one digit; the value fits 64 bits.
unfoldable pub atoi : Bytes → Option ℤ
unfolding unsigned
atoi [] = none
atoi (c ∷ s) =
    if c == b'-'
    then (elim (unsigned s) [
      | none ↦ none
      | some n ↦ if ltb (2 ^ 63) n then none else some (if n == 0 then pos 0 else negsuc (n - 1))
    ])
    else (elim (unsigned (if c == b'+' then s else c ∷ s)) [
      | none ↦ none
      | some n ↦ if ltb n (2 ^ 63) then some (pos n) else none
    ])

abbrev pub push_text : Bytes → List Bytes → List Bytes
push_text [] parts = parts
push_text (c ∷ text) parts = (c ∷ text) ∷ parts

-- The parts between separators, without the empty ones; `part` is what has been read of one.
unfoldable pub split_parts : (ℕ → Bool) → Bytes → Bytes → List Bytes
split_parts sep part [] = push_text part []
split_parts sep part (c ∷ s) = elim (sep c) [
  | true ↦ push_text part (split_parts sep [] s)
  | false ↦ split_parts sep (part ++ (c ∷ [])) s
]

unfoldable pub split_where : (ℕ → Bool) → Bytes → List Bytes
unfolding split_parts
split_where sep s = split_parts sep [] s
