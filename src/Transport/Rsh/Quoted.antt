-- ===== src/Transport/Rsh/Quoted.antt =====
-- Arguments in quotes survive the splitting.
use grsync.Base.{ℕ, ◌≡◌, ◌≢◌, refl, ap, ◌∙◌, false, Bool-cases, inl, inr}
use grsync.Base.{List, [], ◌∷◌, ◌++◌, Bytes, All, append-nil, append_assoc, ◌==◌, contains_byte}
use grsync.Transport.Rsh.{SplitState, flush, split_step, split_loop, split_rsh_command}

-- A field that double quotes can hold.
abbrev pub IsQuotable : Bytes → Type 0
IsQuotable field = (field ≢ []) × (contains_byte field b'"' ≡ false)

-- The fields in double quotes, each followed by a space.
unfoldable pub quote_fields : List Bytes → Bytes
quote_fields [] = []
quote_fields (field ∷ fields) = b'"' ∷ (field ++ (b'"' ∷ b' ' ∷ quote_fields fields))

split_step-quoted :
    (fields : List Bytes) (current : Bytes) (c : ℕ)
    → (c == b'"') ≡ false
    → split_step (record { fields = fields; current = current; in_quote = b'"' }) c
      ≡ record { fields = fields; current = current ++ (c ∷ []); in_quote = b'"' }
unfolding split_step
split_step-quoted fields current c other = rw (other, split_step) refl

-- Inside the quotes every byte is taken as it is.
split_loop-quoted :
    (fields : List Bytes) (current field rest : Bytes)
    → contains_byte field b'"' ≡ false
    → split_loop
        (record { fields = fields; current = current; in_quote = b'"' })
        (field ++ (b'"' ∷ rest))
      ≡ split_loop (record { fields = fields; current = current ++ field; in_quote = 0 }) rest
unfolding split_loop split_step contains_byte
split_loop-quoted fields current [] rest lacks = rw (append-nil current) refl
split_loop-quoted fields current (c ∷ field) rest lacks = elim (Bool-cases (c == b'"')) [
  | inl quote ↦ absurd (cc (rw (quote, contains_byte) at lacks))
  | inr other ↦
      ap (λ (st : SplitState). split_loop st (field ++ (b'"' ∷ rest)))
        (split_step-quoted fields current c other)
      ∙ split_loop-quoted fields (current ++ (c ∷ [])) field rest
          (rw (other, contains_byte) at lacks)
      ∙ ap
          (λ (text : Bytes).
            split_loop (record { fields = fields; current = text; in_quote = 0 }) rest)
          (append_assoc current (c ∷ []) field)
]

split_loop-quote_fields :
    (done fields : List Bytes)
    → All IsQuotable fields
    → split_loop (record { fields = done; current = []; in_quote = 0 }) (quote_fields fields)
      ≡ record { fields = done ++ fields; current = []; in_quote = 0 }
unfolding split_loop quote_fields split_step flush
split_loop-quote_fields done [] h = rw (append-nil done) refl
split_loop-quote_fields done ([] ∷ fields) ((nonempty, lacks), h) = absurd (nonempty refl)
split_loop-quote_fields done ((c ∷ field) ∷ fields) ((nonempty, lacks), h) =
    split_loop-quoted done [] (c ∷ field) (b' ' ∷ quote_fields fields) lacks
    ∙ split_loop-quote_fields (done ++ ((c ∷ field) ∷ [])) fields h
    ∙ ap (λ (l : List Bytes). record { fields = l; current = []; in_quote = 0 })
        (append_assoc done ((c ∷ field) ∷ []) fields)

-- A command line whose arguments stand in double quotes, none of them empty or with a double
-- quote, is split into those arguments, spaces and all.
pub split_rsh_command-quote_fields :
    (fields : List Bytes) → All IsQuotable fields → split_rsh_command (quote_fields fields) ≡ fields
unfolding split_rsh_command
split_rsh_command-quote_fields fields h =
    ap flush (split_loop-quote_fields [] fields h) ∙ (unfold flush in refl)
