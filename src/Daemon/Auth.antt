-- ===== src/Daemon/Auth.antt =====
-- internal/daemon/auth.go: the challenge and its response. `digest` stands for MD4 in base64,
-- `challenge` for the random text (`none` if the source of randomness fails), `scan` for the lines
-- of the secrets file (`none` if it cannot be read).
pub mod Accepted
pub mod Agreement
mod Tests
use grsync.Base.{ℕ, zero, suc, Bool, true, false, not, ◌&&◌, ◌||◌, Option, none, some}
use grsync.Base.{
  List, [], ◌∷◌, ◌++◌, Bytes, codes, length, drop, ltb, ◌==◌, if◌then◌else◌, same_bytes, has_prefix,
  cut_byte, Result, ok, err, panic,
}
use grsync.Conn.{Conn, Io, throw, pure, ◌>>=◌, ◌>>◌, wrap_err}
use grsync.Daemon.Lines.{LineError, write_line, read_line}
use grsync.Daemon.Config.{Module}

pub data AuthError : Type 0 where
  reading : LineError → AuthError
  -- `ErrAuthFailed`, also in the case of a malformed response.
  auth_failed no_challenge no_password : AuthError
  unexpected_line : Bytes → AuthError

unfoldable pub auth_required : Module → Bool
auth_required m = elim m.auth_users [ [] ↦ false | u ∷ users ↦ true ]

abbrev pub ok_line : Bytes
ok_line = codes "@RSYNCD: OK"

abbrev pub auth_prefix : Bytes
auth_prefix = codes "@RSYNCD: AUTHREQD "

unfoldable pub failed_line : Module → Bytes
failed_line m = codes "@ERROR: auth failed on module " ++ m.name

unfoldable pub user_allowed : Bytes → List Bytes → Bool
unfolding same_bytes
user_allowed user [] = false
user_allowed user (u ∷ users) = if same_bytes u user then true else user_allowed user users

-- The secret of a name in a file's lines: the last line for it counts.
unfoldable pub find_secret : Bytes → List Bytes → Option Bytes
unfolding same_bytes cut_byte
find_secret user [] = none
find_secret user (line ∷ lines) = elim (find_secret user lines) [
  | some secret ↦ some secret
  | none ↦ if has_prefix line (codes "#") then none else (elim (cut_byte b':' line) [
    | none ↦ none
    | some (name, secret) ↦ if same_bytes name user then some secret else none
  ])
]

module _ (digest : Bytes → Bytes) where
  unfoldable pub md4_hash : Bytes → Bytes → Bytes
  md4_hash secret challenge = digest (secret ++ challenge)

  module _ (scan : Bytes → Option (List Bytes)) where
    -- Whether the server accepts a response: `none` is a failure of any kind.
    unfoldable pub check_response : Module → Bytes → Bytes → Option Bytes
    unfolding md4_hash user_allowed find_secret
    check_response m challenge line = elim (cut_byte b' ' line) [
      | none ↦ none
      | some (user, response) ↦
          if not (user_allowed user m.auth_users) then none else (elim (scan m.secrets_file) [
            | none ↦ none
            | some lines ↦ elim (find_secret user lines) [
              | none ↦ none
              | some secret ↦
                  if same_bytes response (md4_hash secret challenge) then some user else none
            ]
          ])
    ]

    unfoldable pub answer_response : Module → Option Bytes → Io AuthError Bytes
    unfolding write_line failed_line
    answer_response m none = do write_line (failed_line m); throw auth_failed
    answer_response m (some user) = do write_line ok_line; pure user

    -- The user, which is empty where no authentication is required.
    unfoldable pub serve_auth : Option Bytes → Module → Io AuthError Bytes
    unfolding auth_required check_response answer_response write_line
    serve_auth challenge m =
        if not (auth_required m) then (do write_line ok_line; pure []) else (elim challenge [
          | none ↦ throw no_challenge
          | some text ↦ (do
            write_line (auth_prefix ++ text)
            line ← wrap_err reading read_line
            answer_response m (check_response m text line))
        ])

  -- The name that is sent: "nobody" for an empty one.
  unfoldable pub send_user : Bytes → Bytes
  send_user [] = codes "nobody"
  send_user (c ∷ user) = c ∷ user

  -- The loop of `DialAuth`; `password` is `none` where it cannot be resolved. Each round reads a
  -- line.
  unfoldable pub auth_loop : ℕ → Bytes → Option Bytes → Io AuthError (Unit {0})
  unfolding md4_hash write_line send_user
  auth_loop zero user password = throw (reading LineError.end_of_input)
  auth_loop (suc f) user password = do
    line ← wrap_err reading read_line
    elim (has_prefix line auth_prefix) [
      | true ↦ elim password [
        | none ↦ throw no_password
        | some pass ↦ (do
          write_line (send_user user ++ (b' ' ∷ md4_hash pass (drop (length auth_prefix) line)))
          auth_loop f user (some pass))
      ]
      | false ↦
          if same_bytes line ok_line
          then pure tt
          else if has_prefix line (codes "@ERROR")
          then throw auth_failed
          else throw (unexpected_line line)
    ]

  unfoldable pub dial_auth : Bytes → Option Bytes → Io AuthError (Unit {0})
  unfolding auth_loop
  dial_auth user password c = auth_loop (length c.input) user password c
