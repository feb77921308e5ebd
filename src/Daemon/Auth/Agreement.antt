-- ===== src/Daemon/Auth/Agreement.antt =====
-- ServeAuth and DialAuth with the same password.
use grsync.Base.{
  ℕ, zero, suc, ◌≤◌, arith, has_prefix, same_bytes, drop, length, ◌≡◌, ◌≢◌, refl, ap, ◌∙◌, true,
  false, Option, none, some, List, [], ◌∷◌, ◌++◌, append_assoc, Bytes, codes, if◌then◌else◌,
  same_bytes_refl, contains_byte, cut_byte-append, ok,
}
use grsync.Conn.{Io, pure, throw, ◌>>◌}
use grsync.Daemon.Lines.{write_line, read_line}
use grsync.Daemon.Lines.Framed.{line_of, IsLine, read_line_next}
use grsync.Daemon.Config.{Module}
use grsync.Daemon.Auth.{
  AuthError, no_password, auth_failed, unexpected_line, md4_hash, send_user, reading, auth_required,
  ok_line, auth_prefix, user_allowed, find_secret, check_response, answer_response, serve_auth,
  auth_loop, dial_auth,
}

-- A round of the loop, behind its line.
module _ (digest : Bytes → Bytes) where
  unfoldable auth_step : ℕ → Bytes → Option Bytes → Bytes → Io AuthError (Unit {0})
  unfolding auth_loop
  auth_step f user password line = elim (has_prefix line auth_prefix) [
    | true ↦ elim password [
      | none ↦ throw no_password
      | some pass ↦ (do
        write_line (
            send_user digest user ++ (b' ' ∷ md4_hash digest pass (drop (length auth_prefix) line)))
        auth_loop digest f user (some pass))
    ]
    | false ↦
        if same_bytes line ok_line
        then pure tt
        else if has_prefix line (codes "@ERROR")
        then throw auth_failed
        else throw (unexpected_line line)
  ]

module _ (digest : Bytes → Bytes) (scan : Bytes → Option (List Bytes)) where
  auth_loop-auth_prefix :
      (f c : ℕ) (user password text rest out : Bytes)
      → IsLine (auth_prefix ++ text)
      → auth_loop digest
          (suc f)
          (c ∷ user)
          (some password)
          (record { input = auth_prefix ++ (text ++ (b'\n' ∷ rest)); output = out })
        ≡ auth_loop digest f (c ∷ user) (some password) (record {
          input = rest;
          output = out ++ line_of ((c ∷ user) ++ (b' ' ∷ digest (password ++ text)));
        })
  unfolding auth_loop auth_step send_user md4_hash write_line has_prefix
  auth_loop-auth_prefix f c user password text rest out h =
      read_line_next reading (auth_step digest f (c ∷ user) (some password)) (auth_prefix ++ text)
        rest out h

  auth_loop-ok_line :
      (f : ℕ) (user : Bytes) (password : Option Bytes) (rest out : Bytes)
      → auth_loop digest
          (suc f)
          user
          password
          (record { input = line_of ok_line ++ rest; output = out })
        ≡ (ok tt, record { input = rest; output = out })
  unfolding auth_loop read_line has_prefix same_bytes
  auth_loop-ok_line f user password rest out = refl

  -- The client's side, with two rounds at least.
  auth_loop_dialed :
      (f c : ℕ) (user password text reply : Bytes)
      → IsLine (auth_prefix ++ text)
      → 2 ≤ f
      → auth_loop digest f (c ∷ user) (some password) (record {
        input = auth_prefix ++ (text ++ (b'\n' ∷ (line_of ok_line ++ reply)));
        output = [];
      })
        ≡ (
          ok tt,
          record {
            input = reply;
            output = line_of ((c ∷ user) ++ (b' ' ∷ digest (password ++ text)));
          },
        )
  auth_loop_dialed zero c user password text reply line h = absurd (omega arith)
  auth_loop_dialed (suc zero) c user password text reply line h = absurd (omega arith)
  auth_loop_dialed (suc (suc f)) c user password text reply line h =
      auth_loop-auth_prefix (suc f) c user password text (line_of ok_line ++ reply) [] line
      ∙ auth_loop-ok_line f (c ∷ user) (some password) reply
          (line_of ((c ∷ user) ++ (b' ' ∷ digest (password ++ text))))

  dial_auth-sent :
      (c : ℕ) (user password text reply : Bytes)
      → IsLine (auth_prefix ++ text)
      → dial_auth digest (c ∷ user) (some password) (record {
        input = auth_prefix ++ (text ++ (b'\n' ∷ (line_of ok_line ++ reply)));
        output = [];
      })
        ≡ (
          ok tt,
          record {
            input = reply;
            output = line_of ((c ∷ user) ++ (b' ' ∷ digest (password ++ text)));
          },
        )
  unfolding dial_auth
  dial_auth-sent c user password text reply line =
      auth_loop_dialed (length (auth_prefix ++ (text ++ (b'\n' ∷ (line_of ok_line ++ reply))))) c
        user password text reply line (omega arith)

  serve_auth-sent :
      (m : Module) (text answer request : Bytes)
      → auth_required m ≡ true
      → IsLine answer
      → serve_auth digest scan
          (some text)
          m
          (record { input = answer ++ (b'\n' ∷ request); output = [] })
        ≡ answer_response digest scan m
            (check_response digest scan m text answer)
            (record { input = request; output = line_of (auth_prefix ++ text) })
  unfolding serve_auth write_line
  serve_auth-sent m text answer request required response =
      rw (required, serve_auth)
        (read_line_next reading
          (λ (line : Bytes). answer_response digest scan m (check_response digest scan m text line))
          answer request (line_of (auth_prefix ++ text)) response)

  answer_response-known :
      (m : Module) (lines : List Bytes) (user password text request out : Bytes)
      → contains_byte user b' ' ≡ false
      → user_allowed user m.auth_users ≡ true
      → scan m.secrets_file ≡ some lines
      → find_secret user lines ≡ some password
      → answer_response digest scan m
          (check_response digest scan m text (user ++ (b' ' ∷ digest (password ++ text))))
          (record { input = request; output = out })
        ≡ (ok user, record { input = request; output = out ++ line_of ok_line })
  unfolding answer_response check_response md4_hash write_line
  answer_response-known m lines user password text request out spaceless allowed stored known =
      rw
        (
          cut_byte-append b' ' user (digest (password ++ text)) spaceless,
          check_response,
          allowed,
          stored,
          known,
          same_bytes_refl (digest (password ++ text)),
        )
        refl

  -- The client and the server that have the same password for a user agree, where the module
  -- requires authentication: each side reads what the other has written, and both succeed. The user
  -- is one of the module's, of a name that is not empty and has no space; challenge and response
  -- are lines.
  pub dial_auth-serve_auth :
      (m : Module) (lines : List Bytes) (user password text request reply : Bytes)
      → auth_required m ≡ true
      → user ≢ []
      → contains_byte user b' ' ≡ false
      → user_allowed user m.auth_users ≡ true
      → scan m.secrets_file ≡ some lines
      → find_secret user lines ≡ some password
      → IsLine (auth_prefix ++ text)
      → IsLine (user ++ (b' ' ∷ digest (password ++ text)))
      → let asked = line_of (auth_prefix ++ text) ++ line_of ok_line in
        let answer = line_of (user ++ (b' ' ∷ digest (password ++ text))) in
        (dial_auth digest user (some password) (record { input = asked ++ reply; output = [] })
          ≡ (ok tt, record { input = reply; output = answer }))
        × (serve_auth digest scan (some text) m (record { input = answer ++ request; output = [] })
            ≡ (ok user, record { input = request; output = asked }))
  dial_auth-serve_auth m lines [] password text request reply required named spaceless allowed
        stored known challenge response =
      absurd (named refl)
  dial_auth-serve_auth m lines (c ∷ user) password text request reply required named spaceless
        allowed stored known challenge response =
      let answer = (c ∷ user) ++ (b' ' ∷ digest (password ++ text)) in
      let asked : (line_of (auth_prefix ++ text) ++ line_of ok_line) ++ reply
          ≡ auth_prefix ++ (text ++ (b'\n' ∷ (line_of ok_line ++ reply))) =
        ap (λ (t : Bytes). auth_prefix ++ t)
          (append_assoc (line_of text) (line_of ok_line) reply
            ∙ append_assoc text (b'\n' ∷ []) (line_of ok_line ++ reply)) in
      (
        ap
              (λ (input : Bytes).
                dial_auth digest (c ∷ user) (some password) (record { input = input; output = [] }))
              asked
            ∙ dial_auth-sent c user password text reply challenge,
        ap
              (λ (input : Bytes).
                serve_auth digest scan (some text) m (record { input = input; output = [] }))
              (append_assoc answer (b'\n' ∷ []) request)
            ∙ serve_auth-sent m text answer request required response
            ∙ answer_response-known m lines (c ∷ user) password text request
                (line_of (auth_prefix ++ text)) spaceless allowed stored known,
      )
