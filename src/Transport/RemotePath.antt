-- ===== src/Transport/RemotePath.antt =====
-- internal/transport/remotepath.go: remote endpoints, [user@]host:path.
pub mod Parsed
pub mod Printed
mod Tests
use grsync.Base.{ℕ, Bool, true, false, ◌&&◌, ◌||◌, Option, none, some}
use grsync.Base.{
  List, [], ◌∷◌, Bytes, codes, drop, leb, ◌==◌, if◌then◌else◌, contains_byte, contains_text,
  cut_byte,
}

pub record RemotePath : Type 0 where
  pub user : Bytes
  pub host : Bytes
  pub path : Bytes

unfoldable pub is_windows_drive_letter_path : Bytes → Bool
is_windows_drive_letter_path (c ∷ d ∷ s) =
    ((leb b'A' c && leb c b'Z') || (leb b'a' c && leb c b'z')) && (d == b':')
is_windows_drive_letter_path _ = false

-- The user, if there is an `@` with no slash before it, and the rest.
unfoldable pub split_user : Bytes → Bytes × Bytes
split_user s = elim (cut_byte b'@' s) [
  | none ↦ ([], s)
  | some (before, after) ↦ if contains_byte before b'/' then ([], s) else (before, after)
]

-- A host in brackets; the text behind the closing one is `after`.
unfoldable pub bracketed : Bytes → Bytes → Bytes → Option RemotePath
bracketed user [] after = none
bracketed user (c ∷ host) [] = none
bracketed user (c ∷ host) (d ∷ path) =
    if d == b':' then some (record { user = user; host = host; path = path }) else none

unfoldable pub split_host : Bytes → Bytes → Option RemotePath
unfolding bracketed cut_byte contains_byte
split_host user [] = none
split_host user (c ∷ rest) =
    if c == b'['
    then (elim (cut_byte b']' (c ∷ rest)) [
      | none ↦ none
      | some (before, after) ↦ bracketed user before after
    ])
    else (elim (cut_byte b':' (c ∷ rest)) [
      | none ↦ none
      | some (host, path) ↦
          if contains_byte host b'/'
          then none
          else some (record { user = user; host = host; path = path })
    ])

unfoldable pub with_host : Option RemotePath → Option RemotePath
with_host none = none
with_host (some r) = elim r.host [ [] ↦ none | c ∷ host ↦ some r ]

unfoldable pub parse_remote_path : Bytes → Option RemotePath
unfolding is_windows_drive_letter_path split_user split_host with_host contains_text
parse_remote_path [] = none
parse_remote_path (c ∷ s) =
    if is_windows_drive_letter_path (c ∷ s) || contains_text (c ∷ s) (codes "://")
    then none
    else (let (user, rest) = split_user (c ∷ s) in with_host (split_host user rest))
