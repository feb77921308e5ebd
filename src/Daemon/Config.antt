-- ===== src/Daemon/Config.antt =====
-- internal/daemon/config.go: rsyncd.conf. The lines of the file, as bufio.Scanner reads them, are
-- the input.
pub mod Valid
mod Tests
use grsync.Base.{ℕ, zero, suc, ◌+◌, Bool, true, false, not, ◌&&◌, ◌||◌, Option, none, some}
use grsync.Base.{
  List, [], ◌∷◌, ◌++◌, Bytes, codes, drop, ◌==◌, if◌then◌else◌, same_bytes, has_prefix, trim_space,
  ends_with, drop_last, to_lower, is_space, cut_byte, Result, ok, err, panic, ◌>>=◌,
}
use grsync.Base.Numbers.{atoi, split_where}
use grsync.Base.Int.{ℤ, pos}

pub record Module : Type 0 where
  pub name : Bytes
  pub path : Bytes
  pub read_only : Bool
  pub list : Bool
  pub comment : Bytes
  pub exclude : List Bytes
  pub auth_users : List Bytes
  pub secrets_file : Bytes
  pub max_connections : ℤ

abbrev pub module_defaults : Module
module_defaults = record {
  name = [];
  path = [];
  read_only = true;
  list = true;
  comment = [];
  exclude = [];
  auth_users = [];
  secrets_file = [];
  max_connections = pos 0;
}

-- The map from names to modules; a module is put in front, and the first one of a name counts.
abbrev pub Config : Type 0
Config = List Module

unfoldable pub find_module : Bytes → Config → Option Module
unfolding same_bytes
find_module name [] = none
find_module name (m ∷ config) = if same_bytes m.name name then some m else find_module name config

-- The number in an error is the line's, from 1; a module without a path has none.
pub data ConfigError : Type 0 where
  unclosed_header empty_name duplicate no_equals empty_parameter bad_bool bad_number :
      ℕ → ConfigError
  no_path : Bytes → ConfigError

-- `readLogicalLines`: a line that ends in a backslash is joined with the next; `current` is what
-- has been joined so far.
unfoldable pub logical_lines : List Bytes → Bytes → List Bytes
unfolding ends_with drop_last
logical_lines [] [] = []
logical_lines [] (c ∷ current) = (c ∷ current) ∷ []
logical_lines (text ∷ lines) current =
    if ends_with text b'\\'
    then logical_lines lines (current ++ drop_last text)
    else (current ++ text) ∷ logical_lines lines []

unfoldable pub parse_section_header : ℕ → Bytes → Result ConfigError Bytes
unfolding ends_with drop_last trim_space
parse_section_header n line =
    if not (ends_with line b']')
    then err (unclosed_header n)
    else (elim (trim_space (drop 1 (drop_last line))) [
      | [] ↦ err (empty_name n)
      | c ∷ name ↦ ok (c ∷ name)
    ])

unfoldable pub parse_param_line : ℕ → Bytes → Result ConfigError (Bytes × Bytes)
unfolding cut_byte trim_space to_lower
parse_param_line n line = elim (cut_byte b'=' line) [
  | none ↦ err (no_equals n)
  | some (before, after) ↦ elim (to_lower (trim_space before)) [
    | [] ↦ err (empty_parameter n)
    | c ∷ key ↦ ok (c ∷ key, trim_space after)
  ]
]

unfoldable pub parse_bool : Bytes → Option Bool
unfolding to_lower same_bytes
parse_bool value =
    let v = to_lower value in
    if same_bytes v (codes "true") || same_bytes v (codes "yes") || same_bytes v (codes "1")
    then some true
    else if same_bytes v (codes "false") || same_bytes v (codes "no") || same_bytes v (codes "0")
    then some false
    else none

-- `splitCommaOrSpace`
unfoldable pub split_comma_or_space : Bytes → List Bytes
unfolding split_where
split_comma_or_space value = split_where (λ c. (c == b',') || (c == b' ') || (c == b'\t')) value

unfoldable pub fields : Bytes → List Bytes
unfolding split_where is_space
fields value = split_where is_space value

unfoldable pub set_bool : ℕ → Option Bool → (Bool → Module) → Result ConfigError Module
set_bool n none set = err (bad_bool n)
set_bool n (some b) set = ok (set b)

unfoldable pub set_number : ℕ → Option ℤ → (ℤ → Module) → Result ConfigError Module
set_number n none set = err (bad_number n)
set_number n (some k) set = ok (set k)

-- A key that is not known changes nothing.
unfoldable pub apply_param : ℕ → Module → Bytes → Bytes → Result ConfigError Module
unfolding set_bool set_number parse_bool split_comma_or_space fields same_bytes atoi
apply_param n m key value =
    if same_bytes key (codes "path")
    then ok (record m { path = value })
    else if same_bytes key (codes "comment")
    then ok (record m { comment = value })
    else if same_bytes key (codes "read only")
    then set_bool n (parse_bool value) (λ b. record m { read_only = b })
    else if same_bytes key (codes "list")
    then set_bool n (parse_bool value) (λ b. record m { list = b })
    else if same_bytes key (codes "exclude")
    then ok (record m { exclude = fields value })
    else if same_bytes key (codes "auth users")
    then ok (record m { auth_users = split_comma_or_space value })
    else if same_bytes key (codes "secrets file")
    then ok (record m { secrets_file = value })
    else if same_bytes key (codes "max connections")
    then set_number n (atoi value) (λ k. record m { max_connections = k })
    else ok m

-- The loop's variables: the modules that are finished, the defaults, and the module that is being
-- read, if a header has been seen.
pub record ParseState : Type 0 where
  pub modules : Config
  pub global_defaults : Module
  pub current : Option Module

unfoldable pub flush : ParseState → Config
flush st = elim st.current [ none ↦ st.modules | some m ↦ m ∷ st.modules ]

unfoldable pub start_module : ℕ → ParseState → Bytes → Result ConfigError ParseState
unfolding flush find_module
start_module n st name = elim (find_module name (flush st)) [
  | some m ↦ err (duplicate n)
  | none ↦ ok (record {
    modules = flush st;
    global_defaults = st.global_defaults;
    current = some (record st.global_defaults { name = name });
  })
]

unfoldable pub set_param : ℕ → ParseState → Bytes → Bytes → Result ConfigError ParseState
unfolding apply_param
set_param n st key value = elim st.current [
  | none ↦ (do
    m ← apply_param n st.global_defaults key value
    ok (record { modules = st.modules; global_defaults = m; current = none }))
  | some current ↦ (do
    m ← apply_param n current key value
    ok (record { modules = st.modules; global_defaults = st.global_defaults; current = some m }))
]

-- One line, trimmed.
unfoldable pub parse_line : ℕ → ParseState → Bytes → Result ConfigError ParseState
unfolding start_module set_param parse_section_header parse_param_line
parse_line n st [] = ok st
parse_line n st (c ∷ line) =
    if c == b'#'
    then ok st
    else if c == b'['
    then (do name ← parse_section_header n (c ∷ line); start_module n st name)
    else (do param ← parse_param_line n (c ∷ line); set_param n st param.0 param.1)

unfoldable pub parse_loop : ℕ → ParseState → List Bytes → Result ConfigError ParseState
unfolding parse_line trim_space
parse_loop n st [] = ok st
parse_loop n st (line ∷ lines) = do
  next ← parse_line n st (trim_space line)
  parse_loop (n + 1) next lines

unfoldable pub check_paths : Config → Result ConfigError (Unit {0})
check_paths [] = ok tt
check_paths (m ∷ config) = elim m.path [ [] ↦ err (no_path m.name) | c ∷ path ↦ check_paths config ]

unfoldable pub parse_config : List Bytes → Result ConfigError Config
unfolding logical_lines parse_loop flush check_paths
parse_config lines = do
  st ←
      parse_loop 1 (record { modules = []; global_defaults = module_defaults; current = none })
        (logical_lines lines [])
  checked ← check_paths (flush st)
  ok (flush st)
