-- ===== src/Receiver/Written.antt =====
-- When the receiver leaves a file unwritten.
use grsync.Base.{
  ◌≡◌, refl, sym, Bool, true, false, not, ◌||◌, Bytes, List, same_bytes, same_bytes→eq, ok,
  Bool-cases, inl, inr, ok_injective,
}
use grsync.Base.Int.{ℤ}
use grsync.Blocks.{Signature}
use grsync.Delta.{DeltaOp}
use grsync.Sender.{AppendAction, append_none, append_tail, append_skip}
use grsync.Receiver.{
  ReceiverOptions, append_mode, choose_signature, new_content, is_skip, transferred,
}

not_or : (a b : Bool) → not a || b ≡ false → (a ≡ true) × (b ≡ false)
not_or true b h = (refl, h)
not_or false b h = absurd (cc h)

not-false : (b : Bool) → not b ≡ false → b ≡ true
not-false true h = refl
not-false false h = absurd (cc h)

-- Only an existing file is skipped.
choose_signature-skip :
    (strong_checksum : Bytes → Bytes) (o : ReceiverOptions) (existed : Bool) (old : Bytes)
    (size : ℤ)
    → is_skip (choose_signature strong_checksum o existed old size).0 ≡ true
    → existed ≡ true
unfolding choose_signature is_skip
choose_signature-skip strong_checksum o true old size h = refl
choose_signature-skip strong_checksum o false old size h = elim (Bool-cases (append_mode o)) [
  | inl appending ↦ absurd (cc (rw (appending, choose_signature) at h))
  | inr plain ↦ absurd (cc (rw (plain, choose_signature) at h))
]

-- The same for any action that skips existing files alone.
unwritten :
    (action : AppendAction) (existed : Bool) (old : Bytes) (ops : List DeltaOp) (sig : Signature)
    (new_data : Bytes)
    → (is_skip action ≡ true → existed ≡ true)
    → new_content action old ops sig ≡ ok new_data
    → transferred action existed old new_data ≡ false
    → (existed ≡ true) × (new_data ≡ old)
unfolding transferred new_content
unwritten append_skip existed old ops sig new_data skips content h =
    (skips refl, sym (ok_injective content))
unwritten append_none existed old ops sig new_data skips content h =
    let (there, same) = not_or existed (not (same_bytes old new_data)) h in
    (there, sym (same_bytes→eq old new_data (not-false _ same)))
unwritten append_tail existed old ops sig new_data skips content h =
    let (there, same) = not_or existed (not (same_bytes old new_data)) h in
    (there, sym (same_bytes→eq old new_data (not-false _ same)))

-- A file that the receiver does not write was there before, and its new content is the bytes that
-- the delta was made against.
pub transferred_unwritten :
    (strong_checksum : Bytes → Bytes) (o : ReceiverOptions) (existed : Bool) (old : Bytes)
    (size : ℤ) (ops : List DeltaOp) (new_data : Bytes)
    → let choice = choose_signature strong_checksum o existed old size in
      new_content choice.0 old ops choice.1 ≡ ok new_data
      → transferred choice.0 existed old new_data ≡ false
      → (existed ≡ true) × (new_data ≡ old)
transferred_unwritten strong_checksum o existed old size ops new_data content h =
    unwritten _ existed old ops _ new_data
      (choose_signature-skip strong_checksum o existed old size) content h
