-- ===== src/Transport/RemotePath/Tests.antt =====
-- Runs of the parser, and its theorems at concrete texts.
use grsync.Base.{◌≡◌, refl, none, some, [], ◌∷◌, ◌++◌, codes, contains_byte, contains_text}
use grsync.Transport.RemotePath.{RemotePath, is_windows_drive_letter_path, parse_remote_path}
use grsync.Transport.RemotePath.Parsed.{IsEndpoint, parse_remote_path-IsEndpoint}
use grsync.Transport.RemotePath.Printed.{parse_remote_path-printed}

abbrev v6 : RemotePath
v6 = record { user = codes "u"; host = codes "::1"; path = codes "p:q" }

parse_brackets : parse_remote_path (codes "u@[::1]:p:q") ≡ some v6
unfolding parse_remote_path
parse_brackets = refl

parse_drive : parse_remote_path (codes "C:x") ≡ none
unfolding parse_remote_path
parse_drive = refl

parse_plain :
    parse_remote_path (codes "host:") ≡ some (record { user = []; host = codes "host"; path = [] })
unfolding parse_remote_path
parse_plain = refl

parse_remote_path-IsEndpoint_example : IsEndpoint (codes "u@[::1]:p:q") v6
parse_remote_path-IsEndpoint_example =
    parse_remote_path-IsEndpoint (codes "u@[::1]:p:q") v6 parse_brackets

parse_remote_path-printed_example :
    parse_remote_path (codes "u" ++ (b'@' ∷ codes "host" ++ (b':' ∷ codes "a@b")))
    ≡ some (record { user = codes "u"; host = codes "host"; path = codes "a@b" })
unfolding contains_byte is_windows_drive_letter_path contains_text
parse_remote_path-printed_example =
    parse_remote_path-printed (codes "u") b'h' (codes "ost") (codes "a@b") refl refl refl refl refl
      refl
