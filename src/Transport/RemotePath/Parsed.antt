-- ===== src/Transport/RemotePath/Parsed.antt =====
-- The text of a parsed endpoint.
use grsync.Base.{
  ℕ, ◌≡◌, ◌≢◌, ◌⊎◌, refl, sym, ap, ◌∙◌, Bool, true, false, ◌||◌, Option, none, some, some_injective,
  Option-cases, Bool-cases, inl, inr,
}
use grsync.Base.{
  [], ◌∷◌, ◌++◌, Bytes, codes, ◌==◌, ==_iff, contains_byte, contains_text, cut_byte, cut_byte-some,
  append_assoc,
}
use grsync.Transport.RemotePath.{
  RemotePath, is_windows_drive_letter_path, split_user, bracketed, split_host, with_host,
  parse_remote_path,
}

-- The text before the host: nothing, or the user and an at sign.
abbrev pub UserText : Bytes → Bytes → Type 0
UserText user text = ((user ≡ []) × (text ≡ [])) ⊎ (text ≡ user ++ codes "@")

-- The text from the host on; in brackets the host is any text without a closing bracket.
abbrev pub HostText : Bytes → Bytes → Bytes → Type 0
HostText host path text =
    ((text ≡ host ++ (b':' ∷ path))
      × (contains_byte host b':' ≡ false)
      × (contains_byte host b'/' ≡ false))
    ⊎ ((text ≡ b'[' ∷ (host ++ (b']' ∷ b':' ∷ path))) × (contains_byte host b']' ≡ false))

or-false-right : (a b : Bool) → a || b ≡ false → b ≡ false
or-false-right true b h = absurd (cc h)
or-false-right false b h = h

split_user_text :
    (s : Bytes) → (text : Bytes) × UserText (split_user s).0 text × (s ≡ text ++ (split_user s).1)
unfolding split_user
split_user_text s = elim (Option-cases (cut_byte b'@' s)) [
  | inl no_at ↦ rw (no_at, split_user) ([], inl (refl, refl), refl)
  | inr (part, cut) ↦ elim (Bool-cases (contains_byte part.0 b'/')) [
    | inl slashed ↦ rw (cut, slashed, split_user) ([], inl (refl, refl), refl)
    | inr user ↦
        let (text, _) = cut_byte-some b'@' s part cut in
        rw (cut, user, split_user)
          (part.0 ++ codes "@", inr refl, text ∙ sym (append_assoc part.0 (codes "@") part.1))
  ]
]

head_eq : {x y : ℕ} {xs ys : Bytes} → ◌≡◌ {A = Bytes} (x ∷ xs) (y ∷ ys) → x ≡ y
head_eq e = cc

-- A host in brackets, its opening one being `first`.
bracketed_text :
    (user before after : Bytes) (r : RemotePath)
    → contains_byte before b']' ≡ false
    → bracketed user before after ≡ some r
    → (r.user ≡ user)
      × (first : ℕ) × (before ++ (b']' ∷ after) ≡ first ∷ (r.host ++ (b']' ∷ b':' ∷ r.path)))
      × (contains_byte r.host b']' ≡ false)
unfolding bracketed contains_byte
bracketed_text user [] after r lacks h = absurd (cc h)
bracketed_text user (c ∷ host) [] r lacks h = absurd (cc h)
bracketed_text user (c ∷ host) (d ∷ path) r lacks h = elim (Bool-cases (d == b':')) [
  | inl colon ↦
      let is_colon = (==_iff d b':').0 colon in
      rw (← some_injective (rw (colon, bracketed) at h)) (
        refl,
        c,
        ap (λ x. c ∷ (host ++ (b']' ∷ x ∷ path))) is_colon,
        or-false-right (c == b']') _ lacks,
      )
  | inr other ↦ absurd (cc (rw (other, bracketed) at h))
]

split_host_text :
    (user s : Bytes) (r : RemotePath)
    → split_host user s ≡ some r
    → (r.user ≡ user) × HostText r.host r.path s
unfolding split_host bracketed
split_host_text user [] r h = absurd (cc h)
split_host_text user (c ∷ s) r h = elim (Bool-cases (c == b'[')) [
  | inl brackets ↦ elim (Option-cases (cut_byte b']' (c ∷ s))) [
    | inl unclosed ↦ absurd (cc (rw (brackets, unclosed, split_host) at h))
    | inr (part, cut) ↦
        let (text, lacks) = cut_byte-some b']' (c ∷ s) part cut in
        let (same, first, inside, host_lacks) =
          bracketed_text user part.0 part.1 r lacks (rw (brackets, cut, split_host) at h) in
        (
          same,
          inr (
            text
                ∙ inside
                ∙ ap (λ x. x ∷ (r.host ++ (b']' ∷ b':' ∷ r.path)))
                    (sym (head_eq (text ∙ inside)) ∙ (==_iff c b'[').0 brackets),
            host_lacks,
          ),
        )
  ]
  | inr plain ↦ elim (Option-cases (cut_byte b':' (c ∷ s))) [
    | inl local ↦ absurd (cc (rw (plain, local, split_host) at h))
    | inr (part, cut) ↦ elim (Bool-cases (contains_byte part.0 b'/')) [
      | inl slashed ↦ absurd (cc (rw (plain, cut, slashed, split_host) at h))
      | inr remote ↦
          let (text, colonless) = cut_byte-some b':' (c ∷ s) part cut in
          rw (← some_injective (rw (plain, cut, remote, split_host) at h))
            (refl, inl (text, colonless, remote))
    ]
  ]
]

-- What an endpoint's text is made of.
pub record IsEndpoint (s : Bytes) (r : RemotePath) : Type 0 where
  pub user_text : Bytes
  pub host_text : Bytes
  pub text : s ≡ user_text ++ host_text
  pub user_part : UserText r.user user_text
  pub host_part : HostText r.host r.path host_text
  pub host_nonempty : r.host ≢ []
  pub not_drive : is_windows_drive_letter_path s ≡ false
  pub not_url : contains_text s (codes "://") ≡ false

or-false-left : (a b : Bool) → a || b ≡ false → a ≡ false
or-false-left true b h = absurd (cc h)
or-false-left false b h = refl

nonempty-cases : (s : Bytes) → (s ≡ []) ⊎ ((c : ℕ) × (rest : Bytes) × (s ≡ c ∷ rest))
nonempty-cases [] = inl refl
nonempty-cases (c ∷ s) = inr (c, s, refl)

with_host_inv :
    (o : Option RemotePath) (r : RemotePath) → with_host o ≡ some r → (o ≡ some r) × (r.host ≢ [])
unfolding with_host
with_host_inv none r h = absurd (cc h)
with_host_inv (some q) r h = elim (nonempty-cases q.host) [
  | inl none_left ↦ absurd (cc (rw (none_left, with_host) at h))
  | inr (c, host, some_left) ↦
      let same = some_injective (rw (some_left, with_host) at h) in
      (ap some same, rw (← same) (λ e. cc))
]

-- A text that parses as an endpoint is its user, if any, with an at sign, its host, in brackets or
-- without colon and slash, a colon and its path; the host is not empty, and the text has no "://"
-- and does not begin with a drive letter and a colon.
pub parse_remote_path-IsEndpoint :
    (s : Bytes) (r : RemotePath) → parse_remote_path s ≡ some r → IsEndpoint s r
unfolding parse_remote_path
parse_remote_path-IsEndpoint [] r h = absurd (cc h)
parse_remote_path-IsEndpoint (c ∷ s) r h =
    elim (Bool-cases
      (is_windows_drive_letter_path (c ∷ s) || contains_text (c ∷ s) (codes "://"))) [
        | inl local ↦ absurd (cc (rw (local, parse_remote_path) at h))
        | inr remote ↦
            let (found, nonempty) =
              with_host_inv (split_host (split_user (c ∷ s)).0 (split_user (c ∷ s)).1) r
                (rw (remote, parse_remote_path) at h) in
            let (user_text, user_part, text) = split_user_text (c ∷ s) in
            let (same, host_part) =
              split_host_text (split_user (c ∷ s)).0 (split_user (c ∷ s)).1 r found in
            record {
              user_text = user_text;
              host_text = (split_user (c ∷ s)).1;
              text = text;
              user_part = rw same user_part;
              host_part = host_part;
              host_nonempty = nonempty;
              not_drive = or-false-left _ _ remote;
              not_url = or-false-right _ _ remote;
            }
      ]
