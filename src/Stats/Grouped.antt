-- ===== src/Stats/Grouped.antt =====
-- Where the commas of a printed number stand.
use grsync.Base.{
  ℕ, suc, ◌+◌, ◌%◌, ◌^◌, ◌≤◌, ◌<◌, ◌≡◌, refl, ap, arith, inl, inr, Bool-cases, true, false, some,
  List, [], ◌∷◌, ◌++◌, Bytes, length, ◌==◌, All, ==_iff, split_on,
}
use grsync.Base.Int.{ℤ, pos, negsuc}
use grsync.Base.Numbers.{atoi}
use grsync.Stats.{format_nat, comma_loop, comma_int}
use grsync.Stats.Printed.{
  IsDigit, IsNumeral, format_nat-IsNumeral, magnitude, without_commas, atoi-comma_int,
}

-- The parts between the commas: three digits each, and behind the first part.
record IsParted (s : Bytes) (n : ℕ) : Type 0 where
  first : Bytes
  groups : List Bytes
  shape : split_on b',' s ≡ first ∷ groups
  first_length : length first ≡ n
  threes : All (λ (g : Bytes). length g ≡ 3) groups

-- One to three digits, and then groups of three, with a comma before each.
pub record IsGrouped (s : Bytes) : Type 0 where
  pub first : Bytes
  pub groups : List Bytes
  pub shape : split_on b',' s ≡ first ∷ groups
  pub some_digits : 1 ≤ length first
  pub three_at_most : length first ≤ 3
  pub threes : All (λ (g : Bytes). length g ≡ 3) groups

cons-IsParted : (c n : ℕ) (s : Bytes) → IsDigit c → IsParted s n → IsParted (c ∷ s) (suc n)
unfolding split_on
cons-IsParted c n s (low, high) p =
    let plain : (c == b',') ≡ false = ground arith in
    record {
      first = c ∷ p.first;
      groups = p.groups;
      shape = rw (plain, p.shape) refl;
      first_length = ap suc p.first_length;
      threes = p.threes;
    }

comma-IsParted : (s : Bytes) → IsParted s 3 → IsParted (b',' ∷ s) 0
unfolding split_on
comma-IsParted s p = record {
  first = [];
  groups = p.first ∷ p.groups;
  shape = rw p.shape refl;
  first_length = refl;
  threes = (p.first_length, p.threes);
}

comma_loop-IsParted :
    (digits : Bytes) → All IsDigit digits → IsParted (comma_loop false digits) (length digits % 3)
unfolding comma_loop split_on
comma_loop-IsParted [] all = record {
  first = [];
  groups = [];
  shape = refl;
  first_length = refl;
  threes = tt;
}
comma_loop-IsParted (c ∷ digits) (digit, all) =
    let more =
      cons-IsParted c (length digits % 3) (comma_loop false digits) digit
        (comma_loop-IsParted digits all) in
    elim (Bool-cases ((length digits + 1) % 3 == 0)) [
      | inl group ↦
          let whole : suc (length digits % 3) ≡ 3 =
            let zero_rest = (==_iff ((length digits + 1) % 3) 0).0 group in
            omega (arith, zero_rest) in
          let none_over : suc (length digits) % 3 ≡ 0 =
            let zero_rest = (==_iff ((length digits + 1) % 3) 0).0 group in
            omega (arith, zero_rest) in
          rw (group, comma_loop, none_over)
            (comma-IsParted (c ∷ comma_loop false digits) (rw whole at more))
      | inr within ↦
          let over : suc (length digits % 3) ≡ suc (length digits) % 3 = ground (arith, within) in
          rw (within, comma_loop) (rw over at more)
    ]

comma_loop-IsGrouped : (s : Bytes) → IsNumeral s → IsGrouped (comma_loop true s)
unfolding comma_loop
comma_loop-IsGrouped s h = rw h.shape (
    let (digit, all) = rw h.shape at h.digits in
    let p =
      cons-IsParted h.head (length h.tail % 3) (comma_loop false h.tail) digit
        (comma_loop-IsParted h.tail all) in
    record {
      first = p.first;
      groups = p.groups;
      shape = p.shape;
      some_digits = omega (arith, p.first_length);
      three_at_most = omega (arith, p.first_length);
      threes = p.threes;
    })

abbrev pub sign : ℤ → Bytes
sign (pos n) = []
sign (negsuc n) = b'-' ∷ []

-- Any number of 64 bits is printed as its sign, one to three digits, and groups of three digits
-- with a comma before each; and Atoi reads it back once the commas are taken out.
pub comma_int-IsGrouped :
    (z : ℤ)
    → magnitude z < 2 ^ 63
    → ((body : Bytes) × (comma_int z ≡ sign z ++ body) × IsGrouped body)
      × (atoi (without_commas (comma_int z)) ≡ some z)
unfolding comma_int
comma_int-IsGrouped (pos n) h = (
  (
    comma_loop true (format_nat n),
    refl,
    comma_loop-IsGrouped (format_nat n) (format_nat-IsNumeral n),
  ),
  atoi-comma_int (pos n) h,
)
comma_int-IsGrouped (negsuc n) h = (
  (
    comma_loop true (format_nat (n + 1)),
    refl,
    comma_loop-IsGrouped (format_nat (n + 1)) (format_nat-IsNumeral (n + 1)),
  ),
  atoi-comma_int (negsuc n) h,
)
