-- ===== src/Daemon/Greeting.antt =====
-- internal/daemon/protocol.go: the @RSYNCD greeting, the choice of a module, and the list of
-- modules.
pub mod Selection
mod Tests
use grsync.Base.{ℕ, zero, suc, ◌+◌, Bool, true, false, not, ◌&&◌, ◌||◌, Option, none, some}
use grsync.Base.{
  List, [], ◌∷◌, ◌++◌, map, Bytes, codes, length, drop, leb, ltb, ◌==◌, if◌then◌else◌, same_bytes,
  quoted, has_prefix, cut_byte, Result, ok, err, panic,
}
use grsync.Base.Numbers.{atoi}
use grsync.Base.Sorting.{sort_texts}
use grsync.Base.Int.{ℤ, pos}
use grsync.Conn.{Conn, Io, throw, pure, ◌>>=◌, ◌>>◌, wrap_err}
use grsync.Daemon.Lines.{LineError, write_line, read_line}
use grsync.Daemon.Config.{Module, Config, find_module, fields}

pub data GreetingError : Type 0 where
  reading : LineError → GreetingError
  bad_prefix missing_version bad_version bad_subprotocol unknown_module server_error :
      Bytes → GreetingError
  -- `ErrModuleListRequested`
  module_list_requested : GreetingError

abbrev pub greeting_prefix : Bytes
greeting_prefix = codes "@RSYNCD: "

-- "@RSYNCD: %d.%d" at versions 31 and 0.
abbrev pub greeting_line : Bytes
greeting_line = codes "@RSYNCD: 31.0"

abbrev pub exit_line : Bytes
exit_line = codes "@RSYNCD: EXIT"

unfoldable pub write_greeting : Io GreetingError (Unit {0})
unfolding write_line
write_greeting = write_line greeting_line

-- The version and the part behind its first dot, which is 0 where there is none.
unfoldable pub parse_version : Bytes → Bytes → Result GreetingError (ℤ × ℤ)
unfolding cut_byte atoi
parse_version line field = elim (cut_byte b'.' field) [
  | none ↦ elim (atoi field) [ none ↦ err (bad_version line) | some v ↦ ok (v, pos 0) ]
  | some (before, after) ↦ elim (atoi before) [
    | none ↦ err (bad_version line)
    | some v ↦ elim (atoi after) [ none ↦ err (bad_subprotocol line) | some s ↦ ok (v, s) ]
  ]
]

unfoldable pub parse_greeting : Bytes → Result GreetingError (ℤ × ℤ)
unfolding parse_version fields has_prefix
parse_greeting line =
    if not (has_prefix line greeting_prefix)
    then err (bad_prefix line)
    else (elim (fields (drop (length greeting_prefix) line)) [
      | [] ↦ err (missing_version line)
      | field ∷ rest ↦ parse_version line field
    ])

abbrev pub lift : {E A : Type 0} → Result E A → Io E A
lift r c = (r, c)

unfoldable pub read_greeting : Io GreetingError (ℤ × ℤ)
unfolding parse_greeting
read_greeting = do line ← wrap_err reading read_line; lift (parse_greeting line)

unfoldable pub listable_names : Config → List Bytes
listable_names [] = []
listable_names (m ∷ config) =
    if m.list then m.name ∷ listable_names config else listable_names config

abbrev pub comment_of : Option Module → Bytes
comment_of none = []
comment_of (some m) = m.comment

unfoldable pub list_line : Config → Bytes → Bytes
unfolding find_module
list_line config name = name ++ (b'\t' ∷ comment_of (find_module name config))

unfoldable pub module_lines : Config → List Bytes
unfolding sort_texts listable_names list_line
module_lines config = map (list_line config) (sort_texts (listable_names config))

unfoldable pub write_lines : List Bytes → Io GreetingError (Unit {0})
unfolding write_line
write_lines [] = pure tt
write_lines (line ∷ lines) = do write_line line; write_lines lines

unfoldable pub write_module_list : Config → Io GreetingError (Unit {0})
unfolding write_lines module_lines
write_module_list config = do write_lines (module_lines config); write_line exit_line

-- What the server does with the line behind the greeting.
unfoldable pub select_module : Config → Bytes → Io GreetingError Module
unfolding write_module_list find_module
select_module config request =
    if same_bytes request (codes "#list")
    then (do write_module_list config; throw module_list_requested)
    else (elim (find_module request config) [
      | none ↦ (do
        write_line (codes "@ERROR: Unknown module " ++ quoted request)
        throw (unknown_module request))
      | some m ↦ pure m
    ])

unfoldable pub serve_greeting : Config → Io GreetingError Module
unfolding write_greeting read_greeting select_module
serve_greeting config = do
  write_greeting
  version ← read_greeting
  request ← wrap_err reading read_line
  select_module config request

-- Each round reads a line, and so takes a byte at least: as many rounds as there are bytes to read
-- are enough.
unfoldable pub list_loop : ℕ → List Bytes → Io GreetingError (List Bytes)
list_loop zero lines = throw (reading LineError.end_of_input)
list_loop (suc f) lines = do
  line ← wrap_err reading read_line
  elim (same_bytes line exit_line) [
    | true ↦ pure lines
    | false ↦
        if has_prefix line (codes "@ERROR")
        then throw (server_error line)
        else list_loop f (lines ++ (line ∷ []))
  ]

unfoldable pub read_module_list : Io GreetingError (List Bytes)
unfolding list_loop
read_module_list c = list_loop (length c.input) [] c

-- An empty module name asks for the list; the result is the list's lines.
unfoldable pub dial_greeting : Bytes → Io GreetingError (Option (List Bytes))
unfolding write_greeting read_greeting read_module_list write_line
dial_greeting [] = do
  version ← read_greeting
  write_greeting
  write_line (codes "#list")
  lines ← read_module_list
  pure (some lines)
dial_greeting (c ∷ name) = do
  version ← read_greeting
  write_greeting
  write_line (c ∷ name)
  pure none
