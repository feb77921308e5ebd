-- ===== src/Daemon/Auth/Tests.antt =====
-- Runs of the authentication, and its theorems at a concrete user; the digest is the text itself.
use grsync.Base.{
  ◌≡◌, refl, arith, Option, some, List, [], ◌∷◌, ◌++◌, Bytes, codes, contains_byte, ends_with,
  has_prefix, ok, err,
}
use grsync.Daemon.Lines.{write_line, read_line}
use grsync.Daemon.Lines.Framed.{line_of}
use grsync.Daemon.Config.{Module, module_defaults}
use grsync.Daemon.Auth.{
  auth_failed, ok_line, auth_prefix, find_secret, user_allowed, auth_required, serve_auth,
  dial_auth,
}
use grsync.Daemon.Auth.Accepted.{IsProof, serve_auth-IsProof}
use grsync.Daemon.Auth.Agreement.{dial_auth-serve_auth}

abbrev home : Module
home = record module_defaults {
  name = codes "home";
  auth_users = codes "bob" ∷ codes "ann" ∷ [];
  secrets_file = codes "f";
}

abbrev secrets : List Bytes
secrets = codes "ann:old" ∷ codes "# ann:no" ∷ codes "bad" ∷ codes "ann:pw" ∷ []

abbrev digest : Bytes → Bytes
digest s = s

abbrev scan : Bytes → Option (List Bytes)
scan path = some secrets

find_last : find_secret (codes "ann") secrets ≡ some (codes "pw")
unfolding find_secret has_prefix
find_last = refl

abbrev answer : Bytes
answer = codes "ann pwxyz"

serve_wrong :
    serve_auth digest scan
      (some (codes "xyz"))
      home
      (record { input = line_of (codes "ann oldxyz"); output = [] })
    ≡ (
      err auth_failed,
      record {
        input = [];
        output =
            line_of (auth_prefix ++ codes "xyz")
            ++ line_of (codes "@ERROR: auth failed on module home");
      },
    )
unfolding serve_auth read_line has_prefix
serve_wrong = refl

serve_right :
    serve_auth digest scan
      (some (codes "xyz"))
      home
      (record { input = line_of answer; output = [] })
    ≡ (
      ok (codes "ann"),
      record { input = []; output = line_of (auth_prefix ++ codes "xyz") ++ line_of ok_line },
    )
unfolding serve_auth read_line has_prefix
serve_right = refl

serve_auth-IsProof_example :
    (text : Bytes) × (line : Bytes) × (some (codes "xyz") ≡ some text)
    × ((read_line
          (write_line {E = Unit {0}}
            (auth_prefix ++ text)
            (record { input = line_of answer; output = [] })).1).0
        ≡ ok line)
    × IsProof digest scan home text line (codes "ann")
unfolding auth_required
serve_auth-IsProof_example =
    serve_auth-IsProof digest scan (some (codes "xyz")) home
      (record { input = line_of answer; output = [] })
      (record { input = []; output = line_of (auth_prefix ++ codes "xyz") ++ line_of ok_line })
      (codes "ann") serve_right refl

dial_auth-serve_auth_example :
    (dial_auth digest (codes "ann") (some (codes "pw")) (record {
      input = (line_of (auth_prefix ++ codes "xyz") ++ line_of ok_line) ++ [];
      output = [];
    })
      ≡ (ok tt, record { input = []; output = line_of answer }))
    × (serve_auth digest scan
          (some (codes "xyz"))
          home
          (record { input = line_of answer ++ []; output = [] })
        ≡ (
          ok (codes "ann"),
          record { input = []; output = line_of (auth_prefix ++ codes "xyz") ++ line_of ok_line },
        ))
unfolding auth_required contains_byte ends_with user_allowed
dial_auth-serve_auth_example =
    dial_auth-serve_auth digest scan home secrets (codes "ann") (codes "pw") (codes "xyz") [] []
      refl (λ e. cc e) refl refl refl find_last
      (record { one_line = refl; no_return = refl; short = omega arith })
      (record { one_line = refl; no_return = refl; short = omega arith })
