-- ===== src/Transport/RemotePath/Printed.antt =====
-- Endpoints that are written with a user, and paths with an at sign.
use grsync.Base.{ℕ, ◌≡◌, ◌≢◌, refl, ap, ◌∙◌, true, false, ◌||◌, none, some, Bool-cases, inl, inr}
use grsync.Base.{
  [], ◌∷◌, ◌++◌, Bytes, codes, ◌==◌, contains_byte, contains_text, cut_byte-append, cut_byte-absent,
}
use grsync.Transport.RemotePath.{
  is_windows_drive_letter_path, split_user, split_host, with_host, parse_remote_path,
}

-- A text that is not taken for a drive or a URL.
abbrev pub IsCandidate : Bytes → Type 0
IsCandidate s = is_windows_drive_letter_path s || contains_text s (codes "://") ≡ false

split_user-at :
    (user rest : Bytes)
    → contains_byte user b'@' ≡ false
    → contains_byte user b'/' ≡ false
    → split_user (user ++ (b'@' ∷ rest)) ≡ (user, rest)
unfolding split_user
split_user-at user rest lacks flat =
    rw (cut_byte-append b'@' user rest lacks, flat, split_user) refl

parse_remote_path-candidate :
    (s : Bytes)
    → s ≢ []
    → IsCandidate s
    → parse_remote_path s ≡ with_host (split_host (split_user s).0 (split_user s).1)
unfolding parse_remote_path
parse_remote_path-candidate [] nonempty candidate = absurd (nonempty refl)
parse_remote_path-candidate (c ∷ s) nonempty candidate = rw (candidate, parse_remote_path) refl

parse_remote_path-local :
    (s : Bytes)
    → is_windows_drive_letter_path s || contains_text s (codes "://") ≡ true
    → parse_remote_path s ≡ none
unfolding parse_remote_path
parse_remote_path-local [] h = refl
parse_remote_path-local (c ∷ s) h = rw (h, parse_remote_path) refl

nonempty : (user rest : Bytes) → user ++ (b'@' ∷ rest) ≢ []
nonempty [] rest e = cc
nonempty (c ∷ user) rest e = cc

parse_remote_path-user :
    (user rest : Bytes)
    → contains_byte user b'@' ≡ false
    → contains_byte user b'/' ≡ false
    → IsCandidate (user ++ (b'@' ∷ rest))
    → parse_remote_path (user ++ (b'@' ∷ rest)) ≡ with_host (split_host user rest)
parse_remote_path-user user rest lacks flat candidate =
    parse_remote_path-candidate (user ++ (b'@' ∷ rest)) (nonempty user rest) candidate
    ∙ ap (λ (p : Bytes × Bytes). with_host (split_host p.0 p.1))
        (split_user-at user rest lacks flat)

split_host-absent :
    (user s : Bytes)
    → contains_byte s b':' ≡ false
    → contains_byte s b']' ≡ false
    → split_host user s ≡ none
unfolding split_host
split_host-absent user [] colonless closed = refl
split_host-absent user (c ∷ s) colonless closed = elim (Bool-cases (c == b'[')) [
  | inl brackets ↦ rw (brackets, cut_byte-absent b']' (c ∷ s) closed, split_host) refl
  | inr plain ↦ rw (plain, cut_byte-absent b':' (c ∷ s) colonless, split_host) refl
]

-- An endpoint written as user@host:path is read back, for a user without at sign and slash and a
-- host, not empty, without colon and slash that does not begin with a bracket, if the text is not
-- taken for a drive or a URL.
pub parse_remote_path-printed :
    (user : Bytes) (c : ℕ) (host path : Bytes)
    → contains_byte user b'@' ≡ false
    → contains_byte user b'/' ≡ false
    → contains_byte (c ∷ host) b':' ≡ false
    → contains_byte (c ∷ host) b'/' ≡ false
    → (c == b'[') ≡ false
    → IsCandidate (user ++ (b'@' ∷ c ∷ host ++ (b':' ∷ path)))
    → parse_remote_path (user ++ (b'@' ∷ c ∷ host ++ (b':' ∷ path)))
      ≡ some (record { user = user; host = c ∷ host; path = path })
unfolding split_host with_host
parse_remote_path-printed user c host path lacks flat colonless slashless plain candidate =
    parse_remote_path-user user _ lacks flat candidate
    ∙ (let cut = cut_byte-append b':' (c ∷ host) path colonless in
        rw (plain, cut, slashless, split_host) refl)

-- A text host:path whose path has an at sign with no slash before it is not an endpoint, if no
-- colon and no closing bracket follows: what stands before the at sign is taken for the user.
pub parse_remote_path-at_in_path :
    (host before after : Bytes)
    → contains_byte (host ++ (b':' ∷ before)) b'@' ≡ false
    → contains_byte (host ++ (b':' ∷ before)) b'/' ≡ false
    → contains_byte after b':' ≡ false
    → contains_byte after b']' ≡ false
    → parse_remote_path ((host ++ (b':' ∷ before)) ++ (b'@' ∷ after)) ≡ none
unfolding split_host with_host
parse_remote_path-at_in_path host before after lacks flat colonless closed =
    let user = host ++ (b':' ∷ before) in
    elim (Bool-cases (
      is_windows_drive_letter_path (user ++ (b'@' ∷ after))
      || contains_text (user ++ (b'@' ∷ after)) (codes "://"))) [
        | inl local ↦ parse_remote_path-local (user ++ (b'@' ∷ after)) local
        | inr candidate ↦
            parse_remote_path-user user after lacks flat candidate
            ∙ ap with_host (split_host-absent user after colonless closed)
      ]
