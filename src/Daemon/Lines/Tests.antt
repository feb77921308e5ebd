-- ===== src/Daemon/Lines/Tests.antt =====
-- Runs of readLine, and its theorem at a concrete line.
use grsync.Base.{◌≡◌, refl, [], ◌∷◌, ◌++◌, codes, ok, err}
use grsync.Daemon.Lines.{end_of_input, read_line}

read_line_crlf :
    read_line (record { input = codes "ok" ++ (b'\r' ∷ b'\n' ∷ codes "rest"); output = [] })
    ≡ (ok (codes "ok"), record { input = codes "rest"; output = [] })
unfolding read_line
read_line_crlf = refl

read_line_cut :
    read_line (record { input = codes "ok"; output = [] })
    ≡ (err end_of_input, record { input = []; output = [] })
unfolding read_line
read_line_cut = refl
