-- ===== src/Daemon/Config/Valid.antt =====
-- What a configuration that was accepted looks like.
use grsync.Base.{
  ℕ, ◌+◌, ◌≡◌, ◌≢◌, sym, arith, inl, inr, Bool-cases, none, Option-cases, List, [], ◌∷◌, Bytes, All,
  ◌==◌, trim_space, ok, bind-eq-ok, ok_injective,
}
use grsync.Daemon.Config.{
  Module, module_defaults, Config, find_module, logical_lines, parse_section_header,
  parse_param_line, apply_param, ParseState, flush, start_module, set_param, parse_line, parse_loop,
  check_paths, parse_config,
}

-- A parameter never renames a module.
apply_param-name :
    (n : ℕ) (m : Module) (key value : Bytes) (m' : Module)
    → apply_param n m key value ≡ ok m'
    → m'.name ≡ m.name
unfolding apply_param
apply_param-name n m key value m' h = ground (arith)

-- Every module has a name of its own.
abbrev pub IsDistinct : Config → Type 0
IsDistinct [] = Unit
IsDistinct (m ∷ config) = (m.name ≢ []) × (find_module m.name config ≡ none) × IsDistinct config

parse_section_header-nonempty :
    (n : ℕ) (line name : Bytes) → parse_section_header n line ≡ ok name → name ≢ []
unfolding parse_section_header
parse_section_header-nonempty n line name h e = ground (arith)

start_module-IsDistinct :
    (n : ℕ) (st : ParseState) (name : Bytes) (next : ParseState)
    → name ≢ []
    → IsDistinct (flush st)
    → start_module n st name ≡ ok next
    → IsDistinct (flush next)
unfolding start_module
start_module-IsDistinct n st name next nonempty valid h =
    elim (Option-cases (find_module name (flush st))) [
      | inl fresh ↦
          rw (← ok_injective (rw (fresh, start_module) at h))
            (unfold flush in (nonempty, fresh, valid))
      | inr (m, seen) ↦ absurd (cc (rw (seen, start_module) at h))
    ]

set_param-IsDistinct :
    (n : ℕ) (st : ParseState) (key value : Bytes) (next : ParseState)
    → IsDistinct (flush st)
    → set_param n st key value ≡ ok next
    → IsDistinct (flush next)
unfolding set_param flush
set_param-IsDistinct n st key value next valid h = elim (Option-cases st.current) [
  | inl global ↦
      let (m, applied, made) =
        bind-eq-ok (apply_param n st.global_defaults key value) _ (rw (global, set_param) at h) in
      rw (← ok_injective made) (rw (global, flush) at valid)
  | inr (current, inside) ↦
      let (m, applied, made) =
        bind-eq-ok (apply_param n current key value) _ (rw (inside, set_param) at h) in
      let (nonempty, fresh, others) = rw (inside, flush) at valid in
      let same = sym (apply_param-name n current key value m applied) in
      rw (← ok_injective made) (rw same at nonempty, rw same at fresh, others)
]

parse_line-IsDistinct :
    (n : ℕ) (st : ParseState) (line : Bytes) (next : ParseState)
    → IsDistinct (flush st)
    → parse_line n st line ≡ ok next
    → IsDistinct (flush next)
unfolding parse_line
parse_line-IsDistinct n st [] next valid h = rw (← ok_injective h) valid
parse_line-IsDistinct n st (c ∷ line) next valid h = elim (Bool-cases (c == b'#')) [
  | inl comment ↦ rw (← ok_injective (rw (comment, parse_line) at h)) valid
  | inr text ↦ elim (Bool-cases (c == b'[')) [
    | inl header ↦
        let (name, parsed, started) =
          bind-eq-ok (parse_section_header n (c ∷ line)) _ (rw (text, header, parse_line) at h) in
        start_module-IsDistinct n st name next
          (parse_section_header-nonempty n (c ∷ line) name parsed) valid started
    | inr param ↦
        let (pair, parsed, applied) =
          bind-eq-ok (parse_param_line n (c ∷ line)) _ (rw (text, param, parse_line) at h) in
        set_param-IsDistinct n st pair.0 pair.1 next valid applied
  ]
]

parse_loop-IsDistinct :
    (n : ℕ) (st : ParseState) (lines : List Bytes) (last : ParseState)
    → IsDistinct (flush st)
    → parse_loop n st lines ≡ ok last
    → IsDistinct (flush last)
unfolding parse_loop
parse_loop-IsDistinct n st [] last valid h = rw (← ok_injective h) valid
parse_loop-IsDistinct n st (line ∷ lines) last valid h =
    let (next, parsed, rest) = bind-eq-ok (parse_line n st (trim_space line)) _ h in
    parse_loop-IsDistinct (n + 1) next lines last
      (parse_line-IsDistinct n st (trim_space line) next valid parsed) rest

check_paths-All :
    (config : Config) → check_paths config ≡ ok tt → All (λ (m : Module). m.path ≢ []) config
unfolding check_paths
check_paths-All [] h = tt
check_paths-All (m ∷ config) h = ground (arith, check_paths-All config)

-- In a configuration that is accepted each module has a path and a name of its own, and neither is
-- empty.
pub parse_config-IsDistinct :
    (lines : List Bytes) (config : Config)
    → parse_config lines ≡ ok config
    → IsDistinct config × All (λ (m : Module). m.path ≢ []) config
unfolding parse_config
parse_config-IsDistinct lines config h =
    let (st, parsed, more) =
      bind-eq-ok
        (parse_loop 1 (record { modules = []; global_defaults = module_defaults; current = none })
          (logical_lines lines []))
        _ h in
    let (checked, paths, made) = bind-eq-ok (check_paths (flush st)) _ more in
    rw (← ok_injective made) (
      parse_loop-IsDistinct 1 _ (logical_lines lines []) st (unfold flush in tt) parsed,
      check_paths-All (flush st) paths,
    )
