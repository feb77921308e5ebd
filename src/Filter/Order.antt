-- ===== src/Filter/Order.antt =====
-- The order of rules on the command line.
use grsync.Base.{
  ◌≡◌, refl, sym, ap, Bool, false, ◌||◌, Option, List, [], ◌∷◌, ◌++◌, append_assoc, Bytes,
  Bool-cases, inl, inr, if◌then◌else◌,
}
use grsync.Base.{Result, ok, err, panic, ◌>>=◌}
use grsync.Filter.{RawRule, Rule, FilterError, matches, compile_rule, compile_rules, included}

abbrev pub any_matches : List Rule → Bytes → Bool → Bool
any_matches [] path is_dir = false
any_matches (r ∷ rules) path is_dir = matches r path is_dir || any_matches rules path is_dir

-- Rules put behind others decide only about the entries that no earlier rule matches.
pub included-append :
    (first later : List Rule) (path : Bytes) (is_dir : Bool)
    → included (first ++ later) path is_dir ≡ (
        if any_matches first path is_dir
        then included first path is_dir
        else included later path is_dir)
unfolding included
included-append [] later path is_dir = refl
included-append (r ∷ first) later path is_dir = elim (Bool-cases (matches r path is_dir)) [
  | inl hit ↦ rw hit refl
  | inr miss ↦ rw miss (included-append first later path is_dir)
]

-- The results of two compilations, the first one's error before the second one's.
abbrev pub both :
    Result FilterError (List Rule) → Result FilterError (List Rule) → Result FilterError (List Rule)
both a b = do rules ← a; more ← b; ok (rules ++ more)

both_assoc : (a b c : Result FilterError (List Rule)) → both a (both b c) ≡ both (both a b) c
both_assoc (ok a) (ok b) (ok c) = ap ok (sym (append_assoc a b c))
both_assoc (ok a) (ok b) (err e) = refl
both_assoc (ok a) (ok b) panic = refl
both_assoc (ok a) (err e) c = refl
both_assoc (ok a) panic c = refl
both_assoc (err e) b c = refl
both_assoc panic b c = refl

module _ (scan : Bytes → Option (List Bytes)) where
  both_nothing : (b : Result FilterError (List Rule)) → both (ok []) b ≡ b
  both_nothing (ok b) = refl
  both_nothing (err e) = refl
  both_nothing panic = refl

  -- Flags compile one by one, in the order of the command line, each to its rules in its place:
  -- the rules of a command line are those of its first part followed by those of the rest, and its
  -- error is the first one's.
  pub compile_rules-append :
      (first later : List RawRule)
      → compile_rules scan (first ++ later)
        ≡ both (compile_rules scan first) (compile_rules scan later)
  unfolding compile_rules
  compile_rules-append [] later = sym (both_nothing (compile_rules scan later))
  compile_rules-append (raw ∷ first) later = rw (compile_rules-append first later) (
      both_assoc (compile_rule scan raw.kind raw.pattern) (compile_rules scan first)
        (compile_rules scan later))
