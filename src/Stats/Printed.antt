-- ===== src/Stats/Printed.antt =====
-- Printed numbers: their groups of three digits, and what Atoi reads of them.
use grsync.Base.{
  ℕ, zero, suc, ◌+◌, ◌*◌, ◌/◌, ◌%◌, ◌^◌, ◌≤◌, ◌<◌, ◌≡◌, refl, ap, ◌∙◌, arith, inl, inr, Bool-cases,
  Bool, true, false, not, ◌&&◌, some, [], ◌∷◌, Bytes, length, ltb, leb, ◌==◌, if◌then◌else◌, All,
}
use grsync.Base.Int.{ℤ, pos, negsuc}
use grsync.Base.Numbers.{digits_value, unsigned, atoi}
use grsync.Stats.{format_loop, format_nat, comma_loop, comma_int}

-- A text without its commas.
unfoldable pub without_commas : Bytes → Bytes
without_commas [] = []
without_commas (c ∷ s) = let rest = without_commas s in if c == b',' then rest else c ∷ rest

abbrev pub IsDigit : ℕ → Type 0
IsDigit c = (48 ≤ c) × (c ≤ 57)

-- A number's digits: one at least.
pub record IsNumeral (s : Bytes) : Type 0 where
  pub head : ℕ
  pub tail : Bytes
  pub shape : s ≡ head ∷ tail
  pub digits : All IsDigit s

format_loop-IsNumeral :
    (f n : ℕ) (digits : Bytes) → n < f → All IsDigit digits → IsNumeral (format_loop f n digits)
unfolding format_loop
format_loop-IsNumeral zero n digits h all = absurd (omega arith)
format_loop-IsNumeral (suc f) n digits h all = elim (Bool-cases (ltb n 10)) [
  | inl small ↦
      rw (small, format_loop)
        record { head = 48 + n; tail = digits; shape = refl; digits = (ground (arith, small), all) }
  | inr large ↦
      rw (large, format_loop)
        (format_loop-IsNumeral f (n / 10) ((48 + n % 10) ∷ digits) (ground (arith, large))
          (omega arith, all))
]

digits_value_digit :
    (value d : ℕ) (digits : Bytes)
    → d < 10
    → digits_value value ((48 + d) ∷ digits) ≡ digits_value (value * 10 + d) digits
unfolding digits_value
digits_value_digit value d digits h =
    let above : leb 48 (48 + d) ≡ true = ground arith in
    let below : leb (48 + d) 57 ≡ true = ground arith in
    rw (above, below) (ap (λ (v : ℕ). digits_value v digits) (omega arith))

digits_value-format_loop :
    (f n : ℕ) (digits : Bytes)
    → n < f
    → digits_value 0 (format_loop f n digits) ≡ digits_value n digits
unfolding format_loop digits_value
digits_value-format_loop zero n digits h = absurd (omega arith)
digits_value-format_loop (suc f) n digits h = elim (Bool-cases (ltb n 10)) [
  | inl small ↦
      rw (small, format_loop)
        (digits_value_digit 0 n digits (ground (arith, small))
          ∙ ap (λ (v : ℕ). digits_value v digits) (omega arith))
  | inr large ↦
      rw (large, format_loop)
        (digits_value-format_loop f (n / 10) ((48 + n % 10) ∷ digits) (ground (arith, large))
          ∙ digits_value_digit (n / 10) (n % 10) digits (omega arith)
          ∙ ap (λ (v : ℕ). digits_value v digits) (omega arith))
]

without_commas_digit :
    (c : ℕ) (s : Bytes) → IsDigit c → without_commas (c ∷ s) ≡ c ∷ without_commas s
unfolding without_commas
without_commas_digit c s h = let plain : (c == b',') ≡ false = ground arith in rw plain refl

without_commas_minus : (s : Bytes) → without_commas (b'-' ∷ s) ≡ b'-' ∷ without_commas s
unfolding without_commas
without_commas_minus s = refl

without_commas-comma_loop :
    (first : Bool) (digits : Bytes)
    → All IsDigit digits
    → without_commas (comma_loop first digits) ≡ digits
unfolding comma_loop without_commas
without_commas-comma_loop first [] all = refl
without_commas-comma_loop first (c ∷ digits) (digit, all) =
    let one =
      without_commas_digit c (comma_loop false digits) digit
      ∙ ap (◌∷◌ c) (without_commas-comma_loop false digits all) in
    elim (Bool-cases (not first && ((length digits + 1) % 3 == 0))) [
      | inl group ↦ rw (group, comma_loop) one
      | inr within ↦ rw (within, comma_loop) one
    ]

unsigned-IsNumeral : (s : Bytes) → IsNumeral s → unsigned s ≡ digits_value 0 s
unfolding unsigned
unsigned-IsNumeral s h = rw h.shape refl

atoi_numeral :
    (c : ℕ) (s : Bytes) (n : ℕ)
    → IsDigit c
    → digits_value 0 (c ∷ s) ≡ some n
    → n < 2 ^ 63
    → atoi (c ∷ s) ≡ some (pos n)
unfolding atoi unsigned
atoi_numeral c s n (low, high) value small =
    let no_minus : (c == b'-') ≡ false = ground arith in
    let no_plus : (c == b'+') ≡ false = ground arith in
    let fits : ltb n (2 ^ 63) ≡ true = ground arith in
    rw (no_minus, no_plus, atoi, unsigned, value, fits) refl

atoi-IsNumeral :
    (s : Bytes) (n : ℕ)
    → IsNumeral s
    → digits_value 0 s ≡ some n
    → n < 2 ^ 63
    → atoi s ≡ some (pos n)
atoi-IsNumeral s n h value small =
    rw h.shape (atoi_numeral h.head h.tail n (rw h.shape at h.digits).0 (rw h.shape at value) small)

atoi_minus :
    (s : Bytes) (n : ℕ) → unsigned s ≡ some (n + 1) → n < 2 ^ 63 → atoi (b'-' ∷ s) ≡ some (negsuc n)
unfolding atoi
atoi_minus s n value small =
    let fits : ltb (2 ^ 63) (n + 1) ≡ false = ground arith in
    let positive : ((n + 1) == 0) ≡ false = ground arith in
    rw (value, fits, positive) (ap (λ (m : ℕ). some (negsuc m)) (omega arith))

pub format_nat-IsNumeral : (n : ℕ) → IsNumeral (format_nat n)
unfolding format_nat
format_nat-IsNumeral n = format_loop-IsNumeral (suc n) n [] (omega arith) tt

digits_value-format_nat : (n : ℕ) → digits_value 0 (format_nat n) ≡ some n
unfolding format_nat digits_value
digits_value-format_nat n = digits_value-format_loop (suc n) n [] (omega arith)

abbrev pub magnitude : ℤ → ℕ
magnitude (pos n) = n
magnitude (negsuc n) = n

-- What Atoi reads without the commas.
pub atoi-comma_int : (z : ℤ) → magnitude z < 2 ^ 63 → atoi (without_commas (comma_int z)) ≡ some z
unfolding comma_int
atoi-comma_int (pos n) h =
    rw (without_commas-comma_loop true (format_nat n) (format_nat-IsNumeral n).digits)
      (atoi-IsNumeral (format_nat n) n (format_nat-IsNumeral n) (digits_value-format_nat n) h)
atoi-comma_int (negsuc n) h =
    let numeral = format_nat-IsNumeral (n + 1) in
    let bare =
      without_commas_minus (comma_loop true (format_nat (n + 1)))
      ∙ ap (◌∷◌ b'-') (without_commas-comma_loop true (format_nat (n + 1)) numeral.digits) in
    rw bare (
      atoi_minus (format_nat (n + 1)) n
        (unsigned-IsNumeral (format_nat (n + 1)) numeral ∙ digits_value-format_nat (n + 1)) h)
