-- ===== src/Daemon/Lines.antt =====
-- internal/daemon/protocol.go: readLine and writeLine.
pub mod Framed
mod Tests
use grsync.Base.{
  ℕ, zero, suc, ◌+◌, ◌≤◌, ◌≡◌, Bool, true, false, List, [], ◌∷◌, ◌++◌, Bytes, length, leb, ◌==◌,
  if◌then◌else◌,
}
use grsync.Base.{Result, ok, err, panic}
use grsync.Conn.{Conn, Io, write}
use mathlib.Core.List.{reverse}

abbrev pub max_line_length : ℕ
max_line_length = 8192

pub data LineError : Type 0 where
  end_of_input too_long : LineError

unfoldable pub write_line : {E : Type 0} → Bytes → Io E (Unit {0})
unfolding write
write_line s = write (s ++ (b'\n' ∷ []))

-- The bytes read so far are `buf`; the result comes with the bytes that are still to be read.
unfoldable pub read_loop : Bytes → Bytes → Result LineError Bytes × Bytes
read_loop [] buf = (err end_of_input, [])
read_loop (b ∷ s) buf = elim (b == b'\n') [
  | true ↦ (ok buf, s)
  | false ↦
      if leb max_line_length (length buf) then (err too_long, s) else read_loop s (buf ++ (b ∷ []))
]

-- `strings.TrimRight(s, "\r")`, on the text from its end on.
unfoldable pub drop_returns : Bytes → Bytes
drop_returns [] = []
drop_returns (c ∷ s) = if c == b'\r' then drop_returns s else c ∷ s

unfoldable pub trim_returns : Bytes → Bytes
unfolding drop_returns
trim_returns s = reverse (drop_returns (reverse s))

abbrev pub trimmed : Result LineError Bytes → Result LineError Bytes
trimmed (ok s) = ok (trim_returns s)
trimmed (err e) = err e
trimmed panic = panic

unfoldable pub read_line : Io LineError Bytes
unfolding read_loop trim_returns
read_line c = let (r, rest) = read_loop c.input [] in (trimmed r, record c { input = rest })
