-- ===== src/Daemon/Session.antt =====
-- internal/daemon/session.go: what follows authentication. The two sides of a transfer,
-- `pipeline.Sender` and `pipeline.Receiver`, are arguments, with the error that they give.
pub mod Guarded
pub mod Together
mod Tests
use grsync.Base.{ℕ, zero, suc, Bool, true, false, not, ◌&&◌, ◌||◌, Option, none, some}
use grsync.Base.{
  List, [], ◌∷◌, ◌++◌, Bytes, codes, length, drop, ◌==◌, if◌then◌else◌, same_bytes, quoted, Result,
  ok, err, panic,
}
use grsync.Conn.{Conn, Io, throw, pure, ◌>>=◌, ◌>>◌, wrap_err}
use grsync.Daemon.Lines.{LineError, write_line, read_line}
use grsync.Daemon.Config.{Module, fields}
use grsync.Filter.{RawRule, Rule, FilterError, rule_exclude, compile_rules}

-- `Direction` is a string, of which these two are valid.
abbrev pub direction_get : Bytes
direction_get = codes "get"

abbrev pub direction_put : Bytes
direction_put = codes "put"

abbrev pub transfer_done : Bytes
transfer_done = codes "@GRSYNC: DONE"

abbrev pub dry_run_token : Bytes
dry_run_token = codes "--dry-run"

abbrev pub ok_line : Bytes
ok_line = codes "@RSYNCD: OK"

pub data SessionError (T : Type 0) : Type 0 where
  reading : LineError → SessionError T
  invalid_direction refused not_done : Bytes → SessionError T
  read_only : SessionError T
  bad_rules : FilterError → SessionError T
  transfer : T → SessionError T

abbrev pub exclude_rules : List Bytes → List RawRule
exclude_rules [] = []
exclude_rules (p ∷ patterns) = record { kind = rule_exclude; pattern = p } ∷ exclude_rules patterns

-- The rules of a module read no file.
unfoldable pub module_rules : Module → Result FilterError (List Rule)
unfolding compile_rules
module_rules m = compile_rules (λ _. none) (exclude_rules m.exclude)

-- The field behind the direction asks for a dry run.
unfoldable pub asks_dry_run : List Bytes → Bool
unfolding same_bytes
asks_dry_run [] = false
asks_dry_run (option ∷ rest) = same_bytes option dry_run_token

-- What is sent for a direction.
unfoldable pub direction_line : Bytes → Bool → Bytes
unfolding same_bytes
direction_line direction dry_run =
    if same_bytes direction direction_put && dry_run
    then direction ++ (b' ' ∷ dry_run_token)
    else direction

module _ {T : Type 0} where
  unfoldable pub wait_for_transfer_done : Io (SessionError T) (Unit {0})
  wait_for_transfer_done = do
    line ← wrap_err reading read_line
    if same_bytes line transfer_done then pure tt else throw (not_done line)

  module _ (sender : List Rule → Io T (Unit {0})) (receiver : Bool → Io T (Unit {0})) where
    unfoldable pub serve_get : Module → Io (SessionError T) (Unit {0})
    unfolding module_rules wait_for_transfer_done
    serve_get m = elim (module_rules m) [
      | ok rules ↦ (do wrap_err transfer (sender rules); wait_for_transfer_done)
      | err e ↦ throw (bad_rules e)
      | panic ↦ (λ c. (panic, c))
    ]

    unfoldable pub serve_put : Bool → Io (SessionError T) (Unit {0})
    unfolding write_line
    serve_put dry_run = do wrap_err transfer (receiver dry_run); write_line transfer_done

    -- The direction line with its fields.
    unfoldable pub serve_direction : Module → Bytes → List Bytes → Io (SessionError T) (Unit {0})
    unfolding serve_get serve_put asks_dry_run write_line
    serve_direction m line [] = do
      write_line (codes "@ERROR: invalid direction " ++ quoted line)
      throw (invalid_direction line)
    serve_direction m line (direction ∷ options) =
        if same_bytes direction direction_put && m.read_only
        then (do write_line (codes "@ERROR: module is read only"); throw read_only)
        else if same_bytes direction direction_get
        then (do write_line ok_line; serve_get m)
        else if same_bytes direction direction_put
        then (do write_line ok_line; serve_put (asks_dry_run options))
        else (do
          write_line (codes "@ERROR: invalid direction " ++ quoted line)
          throw (invalid_direction line))

    unfoldable pub serve_module : Module → Io (SessionError T) (Unit {0})
    unfolding serve_direction
    serve_module m = do line ← wrap_err reading read_line; serve_direction m line (fields line)

    unfoldable pub dial_transfer : List Rule → Bytes → Bool → Io (SessionError T) (Unit {0})
    unfolding write_line wait_for_transfer_done
    dial_transfer rules direction dry_run =
        if same_bytes direction direction_get
        then (do wrap_err transfer (receiver dry_run); write_line transfer_done)
        else if same_bytes direction direction_put
        then (do wrap_err transfer (sender rules); wait_for_transfer_done)
        else throw (invalid_direction direction)

    unfoldable pub dial_module : List Rule → Bytes → Bool → Io (SessionError T) (Unit {0})
    unfolding direction_line dial_transfer
    dial_module rules direction dry_run = do
      write_line (direction_line direction dry_run)
      ack ← wrap_err reading read_line
      if same_bytes ack ok_line then dial_transfer rules direction dry_run else throw (refused ack)
