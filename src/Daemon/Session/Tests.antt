-- ===== src/Daemon/Session/Tests.antt =====
-- Runs of a session, and its theorems at concrete modules: the sender writes one byte and waits
-- for one.
use grsync.Base.{quoted, ◌≡◌, refl, Bool, true, false, List, [], ◌∷◌, codes, err}
use grsync.Conn.{Io, ◌>>=◌, ◌>>◌, write, read_full, pure}
use grsync.Daemon.Lines.Framed.{line_of}
use grsync.Daemon.Config.{fields, Module, module_defaults}
use grsync.Daemon.Lines.{read_line}
use grsync.Filter.{Rule}
use grsync.Daemon.Session.{read_only, invalid_direction, serve_module}
use grsync.Daemon.Session.Guarded.{serve_module_read_only}

abbrev sender : List Rule → Io Bool (Unit {0})
sender rules = write (b'f' ∷ []) >> (read_full 1 false >>= (λ answer. pure tt))

abbrev receiver : Bool → Io Bool (Unit {0})
receiver dry_run = read_full 1 false >>= (λ file_byte. write (b's' ∷ []))

abbrev open_module : Module
open_module = record module_defaults { name = codes "m"; read_only = false }

abbrev closed_module : Module
closed_module = record module_defaults { name = codes "m"; read_only = true }

serve_read_only :
    serve_module sender receiver closed_module
      (record { input = line_of (codes "put --dry-run"); output = [] })
    ≡ (err read_only, record { input = []; output = line_of (codes "@ERROR: module is read only") })
unfolding serve_module read_line fields quoted
serve_read_only = refl

serve_other :
    serve_module sender receiver open_module
      (record { input = line_of (codes "mirror x"); output = [] })
    ≡ (
      err (invalid_direction (codes "mirror x")),
      record { input = []; output = line_of (codes "@ERROR: invalid direction \"mirror x\"") },
    )
unfolding serve_module read_line fields quoted
serve_other = refl

serve_module_read_only_example :
    serve_module sender receiver closed_module
      (record { input = line_of (codes "put"); output = [] })
    ≡ serve_module sender
        (λ dry_run. write (codes "written"))
        closed_module
        (record { input = line_of (codes "put"); output = [] })
serve_module_read_only_example =
    serve_module_read_only sender receiver (λ dry_run. write (codes "written")) closed_module
      (record { input = line_of (codes "put"); output = [] }) refl
