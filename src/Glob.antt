-- ===== src/Glob.antt =====
-- path.Match of Go's standard library, which internal/sync/filter.go calls for one path element.
-- The filter takes a malformed pattern for one that does not match, so the result is a Bool. It is
-- on bytes, where path.Match takes a UTF-8 character for `?` and a class: the two agree on ASCII.
mod Tests
use grsync.Base.{ℕ, zero, suc, ◌+◌, Bool, true, false, not, ◌&&◌, ◌||◌, Option, none, some}
use grsync.Base.{List, [], ◌∷◌, Bytes, length, leb, ◌==◌, if◌then◌else◌}

-- The ranges of a class are pairs of their ends; the Bool is `true` for a negated class.
pub data Token : Type 0 where
  star any_byte : Token
  byte : ℕ → Token
  class : Bool → List (ℕ × ℕ) → Token

infixl 5 ◌>>=◌
abbrev ◌>>=◌ {ℓ κ} : {A : Type ℓ} {B : Type κ} → Option A → (A → Option B) → Option B
none >>= f = none
some a >>= f = f a

-- A byte of a class is not the pattern's last byte.
unfoldable pub class_byte : Bytes → Option (ℕ × Bytes)
class_byte (c ∷ d ∷ p) = some (c, d ∷ p)
class_byte _ = none

-- `getEsc`
unfoldable pub get_esc : Bytes → Option (ℕ × Bytes)
unfolding class_byte
get_esc [] = none
get_esc (c ∷ p) =
    if (c == b'-') || (c == b']')
    then none
    else if c == b'\\'
    then class_byte p
    else class_byte (c ∷ p)

-- The upper end of a range whose lower end has been read.
unfoldable pub range_end : ℕ → Bytes → Option (ℕ × Bytes)
unfolding get_esc
range_end lo [] = some (lo, [])
range_end lo (c ∷ p) = if c == b'-' then get_esc p else some (lo, c ∷ p)

-- The ranges of a class up to its bracket, of which the Bool says whether there may be no more.
unfoldable pub parse_ranges : ℕ → Bool → Bytes → Option (List (ℕ × ℕ) × Bytes)
unfolding range_end
parse_ranges zero closing p = none
parse_ranges (suc f) closing [] = none
parse_ranges (suc f) closing (c ∷ p) =
    let more = (do
      low ← get_esc (c ∷ p)
      high ← range_end low.0 low.1
      rest ← parse_ranges f true high.1
      some ((low.0, high.0) ∷ rest.0, rest.1)) in
    if closing && (c == b']') then some ([], p) else more

unfoldable pub parse_class : ℕ → Bytes → Option (Token × Bytes)
unfolding parse_ranges
parse_class f [] = none
parse_class f (c ∷ p) =
    if c == b'^'
    then (elim (parse_ranges f false p) [ none ↦ none | some r ↦ some (class true r.0, r.1) ])
    else (elim (parse_ranges f false (c ∷ p)) [
      | none ↦ none
      | some r ↦ some (class false r.0, r.1)
    ])

-- The first token of a pattern, and the pattern behind it.
unfoldable pub next_token : ℕ → Bytes → Option (Token × Bytes)
unfolding parse_class
next_token c p =
    if c == b'*'
    then some (star, p)
    else if c == b'?'
    then some (any_byte, p)
    else if c == b'['
    then parse_class (length p) p
    else if c == b'\\'
    then (elim p [ [] ↦ none | d ∷ rest ↦ some (byte d, rest) ])
    else some (byte c, p)

-- Each token takes a byte of the pattern at least; the number bounds the tokens.
unfoldable pub parse_glob : ℕ → Bytes → Option (List Token)
unfolding next_token
parse_glob f [] = some []
parse_glob zero (c ∷ p) = none
parse_glob (suc f) (c ∷ p) = do
  token ← next_token c p
  tokens ← parse_glob f token.1
  some (token.0 ∷ tokens)

unfoldable pub in_ranges : ℕ → List (ℕ × ℕ) → Bool
in_ranges c [] = false
in_ranges c ((lo, hi) ∷ ranges) = (leb lo c && leb c hi) || in_ranges c ranges

unfoldable pub token_accepts : Token → ℕ → Bool
unfolding in_ranges
token_accepts star c = false
token_accepts any_byte c = not (c == b'/')
token_accepts (byte b) c = b == c
token_accepts (class true ranges) c = not (in_ranges c ranges)
token_accepts (class false ranges) c = in_ranges c ranges

-- Whether `rest` accepts the list itself, or what is left of it after elements that may be passed.
unfoldable pub after_some {ℓ} : {A : Type ℓ} → (A → Bool) → (List A → Bool) → List A → Bool
after_some may_pass rest [] = rest []
after_some may_pass rest (x ∷ xs) = rest (x ∷ xs) || (may_pass x && after_some may_pass rest xs)

unfoldable pub match_tokens : List Token → Bytes → Bool
unfolding token_accepts after_some
match_tokens [] [] = true
match_tokens [] (c ∷ s) = false
match_tokens (star ∷ tokens) s = after_some (λ c. not (c == b'/')) (match_tokens tokens) s
match_tokens (any_byte ∷ tokens) [] = false
match_tokens (any_byte ∷ tokens) (c ∷ s) = token_accepts any_byte c && match_tokens tokens s
match_tokens (byte b ∷ tokens) [] = false
match_tokens (byte b ∷ tokens) (c ∷ s) = token_accepts (byte b) c && match_tokens tokens s
match_tokens (class neg ranges ∷ tokens) [] = false
match_tokens (class neg ranges ∷ tokens) (c ∷ s) =
    token_accepts (class neg ranges) c && match_tokens tokens s

unfoldable pub path_match : Bytes → Bytes → Bool
unfolding parse_glob match_tokens
path_match pattern name = elim (parse_glob (length pattern) pattern) [
  | none ↦ false
  | some tokens ↦ match_tokens tokens name
]
