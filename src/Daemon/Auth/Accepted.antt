-- ===== src/Daemon/Auth/Accepted.antt =====
-- Who gets past ServeAuth.
use grsync.Base.{
  ℕ, suc, ◌≡◌, refl, ap, ◌∙◌, true, inl, inr, Bool-cases, Option, none, some, Option-cases,
  some_injective,
}
use grsync.Base.{
  List, [], ◌∷◌, ◌++◌, Bytes, get_elem?, same_bytes, same_bytes→eq, cut_byte, cut_byte-some, ok,
}
use grsync.Conn.{Conn, wrap_err, next-ok, wrap_result-ok}
use grsync.Daemon.Lines.{write_line, read_line}
use grsync.Daemon.Config.{Module}
use grsync.Daemon.Auth.{
  reading, auth_required, auth_prefix, user_allowed, find_secret, md4_hash, check_response,
  answer_response, serve_auth,
}

user_allowed-get_elem? :
    (user : Bytes) (users : List Bytes)
    → user_allowed user users ≡ true
    → (i : ℕ) × (get_elem? users i ≡ some user)
unfolding user_allowed
user_allowed-get_elem? user [] h = absurd (cc h)
user_allowed-get_elem? user (u ∷ users) h = elim (Bool-cases (same_bytes u user)) [
  | inl same ↦ (0, ap some (same_bytes→eq u user same))
  | inr other ↦
      let (i, e) = user_allowed-get_elem? user users (rw (other, user_allowed) at h) in (suc i, e)
]

-- A response that shows that its user knows a secret: the user is one of the module's, the secret
-- is the user's in the secrets file, and the response is the hash of both.
pub record IsProof (digest : Bytes → Bytes) (scan : Bytes → Option (List Bytes)) (m : Module)
    (challenge line user : Bytes) : Type 0 where
  pub place : ℕ
  pub lines : List Bytes
  pub secret : Bytes
  pub allowed : get_elem? m.auth_users place ≡ some user
  pub stored : scan m.secrets_file ≡ some lines
  pub known : find_secret user lines ≡ some secret
  pub response : line ≡ user ++ (b' ' ∷ digest (secret ++ challenge))

module _ (digest : Bytes → Bytes) (scan : Bytes → Option (List Bytes)) where
  check_response-IsProof :
      (m : Module) (challenge line user : Bytes)
      → check_response digest scan m challenge line ≡ some user
      → IsProof digest scan m challenge line user
  unfolding check_response md4_hash
  check_response-IsProof m challenge line user h = elim (Option-cases (cut_byte b' ' line)) [
    | inl uncut ↦ absurd (cc (rw (uncut, check_response) at h))
    | inr (part, cut) ↦ elim (Bool-cases (user_allowed part.0 m.auth_users)) [
      | inr stranger ↦ absurd (cc (rw (cut, stranger, check_response) at h))
      | inl allowed ↦ elim (Option-cases (scan m.secrets_file)) [
        | inl unreadable ↦ absurd (cc (rw (cut, allowed, unreadable, check_response) at h))
        | inr (lines, stored) ↦ elim (Option-cases (find_secret part.0 lines)) [
          | inl unknown ↦ absurd (cc (rw (cut, allowed, stored, unknown, check_response) at h))
          | inr (secret, known) ↦
              elim (Bool-cases (same_bytes part.1 (digest (secret ++ challenge)))) [
                | inr wrong ↦
                    absurd (cc (rw (cut, allowed, stored, known, wrong, check_response) at h))
                | inl right ↦
                    let (text, _) = cut_byte-some b' ' line part cut in
                    let name =
                      some_injective
                        (rw (cut, allowed, stored, known, right, check_response) at h) in
                    record {
                      place = (user_allowed-get_elem? part.0 m.auth_users allowed).0;
                      lines = lines;
                      secret = secret;
                      allowed =
                          (user_allowed-get_elem? part.0 m.auth_users allowed).1 ∙ ap some name;
                      stored = stored;
                      known = rw (← name) known;
                      response =
                          text
                          ∙ (rw (name, same_bytes→eq part.1 (digest (secret ++ challenge)) right)
                              refl);
                    }
              ]
        ]
      ]
    ]
  ]

  answer_response-some :
      (m : Module) (accepted : Option Bytes) (c c' : Conn) (user : Bytes)
      → answer_response digest scan m accepted c ≡ (ok user, c')
      → accepted ≡ some user
  unfolding answer_response write_line
  answer_response-some m none c c' user h = absurd (cc h)
  answer_response-some m (some u) c c' user h = cc

  -- On a module that requires authentication ServeAuth succeeds only with a user whose response to
  -- the challenge that it wrote shows that the user, one of the module's, knows the secret that the
  -- secrets file has for the user.
  pub serve_auth-IsProof :
      (challenge : Option Bytes) (m : Module) (c c' : Conn) (user : Bytes)
      → serve_auth digest scan challenge m c ≡ (ok user, c')
      → auth_required m ≡ true
      → (text : Bytes) × (line : Bytes) × (challenge ≡ some text)
        × ((read_line (write_line {E = Unit {0}} (auth_prefix ++ text) c).1).0 ≡ ok line)
        × IsProof digest scan m text line user
  unfolding serve_auth write_line
  serve_auth-IsProof none m c c' user h required = absurd (cc (rw (required, serve_auth) at h))
  serve_auth-IsProof (some text) m c c' user h required =
      let asked = (write_line {E = Unit {0}} (auth_prefix ++ text) c).1 in
      let (line, got, answer) =
        next-ok (wrap_err reading read_line)
          (λ (line : Bytes). answer_response digest scan m (check_response digest scan m text line))
          asked c' user (rw (required, serve_auth) at h) in
      (
        text,
        line,
        refl,
        wrap_result-ok reading (read_line asked).0 line got,
        check_response-IsProof m text line user (
            answer_response-some m (check_response digest scan m text line) (read_line asked).1 c'
              user answer),
      )
