-- ===== src/Exchange/Contents.antt =====
-- The contents that a sync leaves.
use grsync.Base.{
  ◌^◌, ◌<◌, ◌≡◌, refl, sym, ap, ◌∙◌, inl, inr, ◌⊎◌, Bool-cases, true, false, not, ◌&&◌, Option,
  some, List, [], ◌∷◌, Bytes, length, All, IsByte, if◌then◌else◌, same_bytes, same_bytes_refl,
  same_bytes→eq,
}
use grsync.Base.Int.{pos}
use grsync.Delta.Apply.{FitsInt}
use grsync.Delta.Roundtrip.{NoCollision}
use grsync.Host.{Host}
use grsync.Compress.{CompressOptions, Zlib, Inflates}
use grsync.Receiver.{ReceiverOptions, choose_signature}
use grsync.Receiver.Transfer.{IsSendable, synced}
use grsync.Entry.{FileEntry}
use grsync.Exchange.{passes, Store, put, content_or_empty, is_some, blocked}

-- A file that the sender can read, as it was listed, against the receiver's old content.
pub record IsReadable (strong_checksum : Bytes → Bytes) (z : Zlib) (host : Host)
    (copts : CompressOptions) (ropts : ReceiverOptions) (read store : Store) (entry : FileEntry)
    : Type 0 where
  pub source : Bytes
  pub regular : passes [] entry ≡ false
  pub stored : read entry.path ≡ some source
  pub listed : entry.size ≡ pos (length source)
  pub fits : FitsInt (content_or_empty (store entry.path)) 700
  pub short : length source < 2 ^ 63
  pub bytes : All IsByte source
  pub distinct : NoCollision strong_checksum (content_or_empty (store entry.path)) 700 source
  pub sends :
      (let chosen =
          choose_signature strong_checksum ropts
            (is_some (store entry.path))
            (content_or_empty (store entry.path))
            (pos (length source)) in
        IsSendable strong_checksum z host copts entry.path source chosen.0 chosen.1)
  pub readable : host.unreadable entry ≡ false
  pub writable : (not ropts.dry_run && host.unwritable entry) ≡ false

-- Entries of different paths.
abbrev pub Differ : List FileEntry → Type 0
Differ [] = Unit {0}
Differ (entry ∷ rest) =
    All (λ (other : FileEntry). same_bytes entry.path other.path ≡ false) rest × Differ rest

-- The content that is expected at a path.
unfoldable pub expected : ReceiverOptions → Store → Store → List FileEntry → Bytes → Option Bytes
unfolding passes synced same_bytes
expected ropts read store [] p = store p
expected ropts read store (entry ∷ rest) p =
    let other = expected ropts read store rest p in
    if not (passes [] entry) && same_bytes entry.path p
    then some
        (synced ropts (is_some (store p)) (content_or_empty (store p)) (content_or_empty (read p)))
    else other

pub same_bytes-false : (s t : Bytes) → same_bytes s t ≡ false → same_bytes t s ≡ false
same_bytes-false s t h = elim (Bool-cases (same_bytes t s)) [
  | inr other ↦ other
  | inl same ↦
      absurd (cc (sym (same_bytes_refl s) ∙ ap (same_bytes s) (sym (same_bytes→eq t s same)) ∙ h))
]

pub put-other :
    (store : Store) (path p content : Bytes)
    → same_bytes path p ≡ false
    → put store path content p ≡ store p
unfolding put
put-other store path p content h = rw h refl

pub put_own : (store : Store) (path content : Bytes) → put store path content path ≡ some content
unfolding put
put_own store path content = rw (same_bytes_refl path) refl

module _ (strong_checksum : Bytes → Bytes) (z : Zlib) (law : Inflates z) (host : Host)
    (copts : CompressOptions) (read : Store) (ropts : ReceiverOptions) where
  abbrev IsReady : Store → FileEntry → Type 0
  IsReady store entry =
      (passes [] entry ≡ true) × (blocked strong_checksum z host copts read ropts entry ≡ false)
      ⊎ IsReadable strong_checksum z host copts ropts read store entry
