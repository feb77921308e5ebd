-- ===== src/Filter/Compiled.antt =====
-- The text of a compiled pattern.
use grsync.Base.{
  ℕ, ◌≡◌, sym, refl, ap, arith, Bool, true, false, ◌||◌, [], ◌∷◌, ◌++◌, Bytes, Bool-cases, inl, inr,
  append-nil,
}
use grsync.Base.{◌==◌, ==_iff, split_on, contains_byte, ends_with, drop_last, ok, ok_injective}
use grsync.Filter.{Action, Rule, has_empty, contains_deep, compile_tail, compile_pattern}

-- The marker of an anchor or a directory, if it is there.
abbrev pub slash : Bool → Bytes
slash true = b'/' ∷ []
slash false = []

ends_with-drop_last : (s : Bytes) (b : ℕ) → ends_with s b ≡ true → s ≡ drop_last s ++ (b ∷ [])
unfolding ends_with drop_last
ends_with-drop_last [] b h = absurd (cc h)
ends_with-drop_last (c ∷ []) b h = ground (arith, h)
ends_with-drop_last (c ∷ d ∷ s) b h = ap (◌∷◌ c) (ends_with-drop_last (d ∷ s) b h)

-- What a rule keeps of the pattern it is compiled from.
pub record IsCompiled (action : Action) (pattern : Bytes) (r : Rule) : Type 0 where
  pub leading : Bool
  pub text : pattern ≡ slash leading ++ (r.pattern ++ slash r.dir_only)
  pub no_empty : has_empty (split_on b'/' r.pattern) ≡ false
  pub anchor : r.anchored ≡ leading || contains_byte r.pattern b'/' || contains_deep r.pattern
  pub same_action : r.action ≡ action

compile_tail_inv :
    (action : Action) (leading : Bool) (pattern : Bytes) (r : Rule)
    → compile_tail action leading pattern ≡ ok r
    → IsCompiled action (slash leading ++ pattern) r
unfolding compile_tail
compile_tail_inv action leading pattern r h = elim (Bool-cases (ends_with pattern b'/')) [
  | inl directory ↦ elim (Bool-cases (has_empty (split_on b'/' (drop_last pattern)))) [
    | inl empty ↦ absurd (cc (rw (directory, empty, compile_tail) at h))
    | inr full ↦
        let made = ok_injective (rw (directory, full, compile_tail) at h) in
        rw (← made) (record {
          leading = leading;
          text = ap (◌++◌ (slash leading)) (ends_with-drop_last pattern b'/' directory);
          no_empty = full;
          anchor = refl;
          same_action = refl;
        })
  ]
  | inr plain ↦ elim (Bool-cases (has_empty (split_on b'/' pattern))) [
    | inl empty ↦ absurd (cc (rw (plain, empty, compile_tail) at h))
    | inr full ↦
        let made = ok_injective (rw (plain, full, compile_tail) at h) in
        rw (← made) (record {
          leading = leading;
          text = ap (◌++◌ (slash leading)) (sym (append-nil pattern));
          no_empty = full;
          anchor = refl;
          same_action = refl;
        })
  ]
]

-- A pattern that compiles is its rule's pattern with a slash before it, behind it, both or
-- neither; the rule is for directories alone exactly if there is one behind it, it is anchored
-- exactly if there is one before it or its pattern has a slash or `**`, and no path element of its
-- pattern is empty.
pub compile_pattern-IsCompiled :
    (action : Action) (pattern : Bytes) (r : Rule)
    → compile_pattern action pattern ≡ ok r
    → IsCompiled action pattern r
unfolding compile_pattern
compile_pattern-IsCompiled action [] r h = compile_tail_inv action false [] r h
compile_pattern-IsCompiled action (c ∷ pattern) r h = elim (Bool-cases (c == b'/')) [
  | inl leads ↦
      let is_slash : c ≡ b'/' = (==_iff c b'/').0 leads in
      rw is_slash (compile_tail_inv action true pattern r (rw (leads, compile_pattern) at h))
  | inr plain ↦ compile_tail_inv action false (c ∷ pattern) r (rw (plain, compile_pattern) at h)
]
