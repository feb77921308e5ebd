-- ===== src/Receiver/Transfer.antt =====
-- One regular file, from the receiver's signature through the sender's operations and the wire to
-- the receiver's new content. The file is listed and read by the sender in one state.
use grsync.Base.{
  ◌^◌, ◌≤◌, ◌<◌, ◌≡◌, refl, ap, ◌∙◌, arith, List, [], ◌++◌, Bytes, length, drop, ltb, length-append,
  length-drop,
}
use grsync.Base.{
  Bool, true, not, false, err, same_bytes, same_bytes_refl, ◌||◌, Option, none, some, Result, ok,
  ◌>>=◌, Bool-cases, inl, inr, if◌then◌else◌, All, IsByte,
}
use grsync.Base.Int.{pos, lt_int}
use grsync.Conn.{wrap_result}
use grsync.Blocks.{Signature, generate_signature, generate_signature_with_block_size}
use grsync.Delta.{DeltaOp, ApplyError, apply_delta}
use grsync.Delta.Apply.{FitsInt}
use grsync.Delta.Roundtrip.{NoCollision, apply_delta-generate_delta}
use grsync.Compress.{CompressOptions, Zlib, Inflates}
use grsync.Host.{DeltaMessage, delta_message, Host, sendable}
use grsync.Wire.{WireError, to_wire_delta_ops, from_wire_delta_ops}
use grsync.Wire.Encode.{from_wire_delta_ops-to_wire_delta_ops}
use grsync.Sender.{AppendAction, append_none, append_tail, append_skip, AppendError, sender_ops}
use grsync.Sender.Tail.{trusting, append_tail_ops-apply_delta}
use grsync.Receiver.{ReceiverOptions, append_mode, choose_signature, new_content}
use grsync.Receiver.Counts.{delta_byte_counts-apply_delta}

pub data TransferError : Type 0 where
  preparing : AppendError → TransferError
  sending_signature sending_delta out_of_order : Bytes → TransferError
  receiving : WireError → TransferError
  applying : ApplyError → TransferError

-- A delta message that has come in, for the entry of the path `path`.
unfoldable pub receive_message :
    Zlib → AppendAction → Signature → Bytes → Bytes → DeltaMessage → Result TransferError Bytes
unfolding new_content same_bytes
receive_message z action sig old path m = do
  received ← wrap_result receiving (from_wire_delta_ops z m.delta)
  (if not (same_bytes m.path path)
      then err (out_of_order m.path)
      else wrap_result applying (new_content action old received sig))

-- The sender's operations, sent as a message if it fits in a frame.
unfoldable pub receive_ops :
    Zlib
    → Host
    → AppendAction
    → Signature
    → Bytes
    → Bytes
    → CompressOptions
    → Result AppendError (List DeltaOp)
    → Result TransferError Bytes
unfolding receive_message sendable
receive_ops z host action sig old path copts sent = do
  ops ← wrap_result preparing sent
  (if not (sendable host.deltas (delta_message z ops path copts))
      then err (sending_delta path)
      else receive_message z action sig old path (delta_message z ops path copts))

-- The sender's answer to a signature and what the receiver makes of it, if the signature's message
-- fits in a frame.
unfoldable pub answer :
    (Bytes → Bytes)
    → Zlib
    → Host
    → CompressOptions
    → Bytes
    → Bytes
    → Bytes
    → AppendAction × Signature
    → Option (Result TransferError Bytes)
unfolding sender_ops receive_ops
answer strong_checksum z host copts path old data_bytes (action, sig) =
    if not (sendable host.signatures (record { path = path; sig = sig; action = action }))
    then some (err (sending_signature path))
    else (elim (sender_ops strong_checksum action sig data_bytes) [
      | none ↦ none
      | some sent ↦ some (receive_ops z host action sig old path copts sent)
    ])

-- Both sides for the file `path` with the source's bytes `data_bytes` and the receiver's `old`.
unfoldable pub transfer_file :
    (Bytes → Bytes)
    → Zlib
    → Host
    → ReceiverOptions
    → CompressOptions
    → Bytes
    → Bool
    → Bytes
    → Bytes
    → Option (Result TransferError Bytes)
unfolding choose_signature answer
transfer_file strong_checksum z host o copts path existed old data_bytes =
    answer strong_checksum z host copts path old data_bytes
      (choose_signature strong_checksum o existed old (pos (length data_bytes)))

-- Both messages of a file fit in a frame: the receiver's signature, and the delta, if there is one.
pub record IsSendable (strong_checksum : Bytes → Bytes) (z : Zlib) (host : Host)
    (copts : CompressOptions) (path data_bytes : Bytes) (action : AppendAction) (sig : Signature)
    : Type 0 where
  pub signature_fits :
      sendable host.signatures (record { path = path; sig = sig; action = action }) ≡ true
  pub delta_fits :
      (ops : List DeltaOp)
      → sender_ops strong_checksum action sig data_bytes ≡ some (ok ops)
      → sendable host.deltas (delta_message z ops path copts) ≡ true

-- What the receiver should have in the end.
unfoldable pub synced : ReceiverOptions → Bool → Bytes → Bytes → Bytes
unfolding append_mode
synced o existed old data_bytes =
    if not (append_mode o) || not existed
    then data_bytes
    else if not (ltb (length old) (length data_bytes))
    then old
    else if o.append_verify
    then data_bytes
    else old ++ drop (length old) data_bytes

-- The signatures of the four cases.
record Choices (strong_checksum : Bytes → Bytes) (o : ReceiverOptions) (existed : Bool)
    (old data_bytes : Bytes) (chosen : AppendAction × Signature) : Type 0 where
  plain :
      (not (append_mode o) || not existed) ≡ true
      → chosen ≡ (append_none, generate_signature_with_block_size strong_checksum old (pos 700))
  kept :
      (not (append_mode o) || not existed) ≡ false
      → ltb (length old) (length data_bytes) ≡ false
      → chosen ≡ (append_skip, record { block_size = pos 0; blocks = [] })
  verified :
      (not (append_mode o) || not existed) ≡ false
      → ltb (length old) (length data_bytes) ≡ true
      → o.append_verify ≡ true
      → chosen ≡ (append_none, generate_signature_with_block_size strong_checksum old (pos 700))
  trusted :
      (not (append_mode o) || not existed) ≡ false
      → ltb (length old) (length data_bytes) ≡ true
      → o.append_verify ≡ false
      → chosen ≡ (append_tail, trusting old)

choices :
    (strong_checksum : Bytes → Bytes) (o : ReceiverOptions) (existed : Bool)
    (old data_bytes : Bytes)
    → Choices strong_checksum o existed old data_bytes
        (choose_signature strong_checksum o existed old (pos (length data_bytes)))
unfolding choose_signature lt_int generate_signature
choices strong_checksum o existed old data_bytes = record {
  plain = λ h. rw (h, choose_signature) refl;
  kept = λ h k. rw (h, choose_signature, lt_int, k) refl;
  verified = λ h k v. rw (h, choose_signature, lt_int, k, v) refl;
  trusted = λ h k v. rw (h, choose_signature, lt_int, k, v) refl;
}

module _ (z : Zlib) (law : Inflates z) (host : Host) where
  receive_ops-apply_delta :
      (action : AppendAction) (sig : Signature) (old path new_data : Bytes)
      (copts : CompressOptions) (ops : List DeltaOp)
      → length old < 2 ^ 63
      → length new_data < 2 ^ 63
      → apply_delta old ops sig ≡ ok new_data
      → new_content action old ops sig ≡ ok new_data
      → sendable host.deltas (delta_message z ops path copts) ≡ true
      → receive_ops z host action sig old path copts (ok ops) ≡ ok new_data
  unfolding receive_ops receive_message
  receive_ops-apply_delta action sig old path new_data copts ops k n h content fits =
      let (matched, counts, sum_eq) = delta_byte_counts-apply_delta old new_data ops sig k n h in
      rw
        (
          fits,
          from_wire_delta_ops-to_wire_delta_ops z law ops path copts (omega arith),
          same_bytes_refl path,
          content,
        )
        refl

  -- A file without an append, or verified.
  answer-none :
      (strong_checksum : Bytes → Bytes) (copts : CompressOptions) (path old data_bytes : Bytes)
      → FitsInt old 700
      → length data_bytes < 2 ^ 63
      → All IsByte data_bytes
      → NoCollision strong_checksum old 700 data_bytes
      → IsSendable strong_checksum z host copts path data_bytes append_none
          (generate_signature_with_block_size strong_checksum old (pos 700))
      → answer strong_checksum z host copts path old data_bytes
          (append_none, generate_signature_with_block_size strong_checksum old (pos 700))
        ≡ some (ok data_bytes)
  unfolding answer sender_ops
  answer-none strong_checksum copts path old data_bytes fits n bytes distinct sends =
      let (ops, made, applied) =
        apply_delta-generate_delta strong_checksum old 699 data_bytes fits bytes distinct in
      rw
        (
          sends.signature_fits,
          made,
          answer,
          sender_ops,
          receive_ops-apply_delta append_none
              (generate_signature_with_block_size strong_checksum old (pos 700)) old path data_bytes
              copts ops (omega (arith, fits.file_fits)) n applied (unfold new_content in applied)
              (sends.delta_fits ops (rw (made, sender_ops) refl)),
        )
        refl

  -- A trusted file and its tail.
  answer-tail :
      (strong_checksum : Bytes → Bytes) (copts : CompressOptions) (path old data_bytes : Bytes)
      → length old < 2 ^ 62
      → length data_bytes < 2 ^ 63
      → length old ≤ length data_bytes
      → IsSendable strong_checksum z host copts path data_bytes append_tail (trusting old)
      → answer strong_checksum z host copts path old data_bytes (append_tail, trusting old)
        ≡ some (ok (old ++ drop (length old) data_bytes))
  unfolding answer sender_ops
  answer-tail strong_checksum copts path old data_bytes k n longer sends =
      let (ops, made, applied) = append_tail_ops-apply_delta old data_bytes k longer in
      let size_eq = length-append old (drop (length old) data_bytes) in
      let rest_eq = length-drop (length old) data_bytes in
      rw
        (
          sends.signature_fits,
          made,
          answer,
          sender_ops,
          receive_ops-apply_delta append_tail (trusting old) old path
              (old ++ drop (length old) data_bytes) copts ops (omega arith) (omega arith) applied
              (unfold new_content in applied) (sends.delta_fits ops (rw (made, sender_ops) refl)),
        )
        refl

  -- A file that is left alone.
  answer-skip :
      (strong_checksum : Bytes → Bytes) (copts : CompressOptions) (path old data_bytes : Bytes)
      → IsSendable strong_checksum z host copts path data_bytes append_skip
          (record { block_size = pos 0; blocks = [] })
      → answer strong_checksum z host copts path old data_bytes
          (append_skip, record { block_size = pos 0; blocks = [] })
        ≡ some (ok old)
  unfolding answer sender_ops receive_ops receive_message from_wire_delta_ops to_wire_delta_ops
      new_content
  answer-skip strong_checksum copts path old data_bytes sends =
      rw (sends.signature_fits, answer)
        (rw (sends.delta_fits [] (unfold sender_ops in refl), receive_ops, same_bytes_refl path)
          refl)

  -- For a file that the source has not changed since it was listed, below 2 ^ 63 bytes, an old
  -- file below 2 ^ 62 bytes, and no window of 700 bytes of the new file that shares both checksums
  -- with a different block of the old one, and a signature and a delta whose messages
  -- fit in a frame, the transfer succeeds, compressed or not: the receiver
  -- has the source's bytes, save under an append mode with an old file at hand, where one at least
  -- as long as the source's is left alone, and, without verification, a shorter one is kept and
  -- continued.
  pub transfer_file-synced :
      (strong_checksum : Bytes → Bytes) (o : ReceiverOptions) (copts : CompressOptions)
      (path : Bytes) (existed : Bool) (old data_bytes : Bytes)
      → FitsInt old 700
      → length data_bytes < 2 ^ 63
      → All IsByte data_bytes
      → NoCollision strong_checksum old 700 data_bytes
      → (let chosen = choose_signature strong_checksum o existed old (pos (length data_bytes)) in
          IsSendable strong_checksum z host copts path data_bytes chosen.0 chosen.1)
      → transfer_file strong_checksum z host o copts path existed old data_bytes
        ≡ some (ok (synced o existed old data_bytes))
  unfolding transfer_file synced
  transfer_file-synced strong_checksum o copts path existed old data_bytes fits n bytes distinct
        sends =
      let c = choices strong_checksum o existed old data_bytes in
      let result : AppendAction × Signature → Option (Result TransferError Bytes) =
        answer strong_checksum z host copts path old data_bytes in
      let whole = answer-none strong_checksum copts path old data_bytes fits n bytes distinct in
      elim (Bool-cases (not (append_mode o) || not existed)) [
        | inl plain ↦
            let e = c.plain plain in ap result e ∙ rw (plain, synced) (whole (rw e at sends))
        | inr appending ↦ elim (Bool-cases (ltb (length old) (length data_bytes))) [
          | inr kept ↦
              let e = c.kept appending kept in
              ap result e
              ∙ rw (appending, kept, synced)
                  (answer-skip strong_checksum copts path old data_bytes (rw e at sends))
          | inl shorter ↦ elim (Bool-cases o.append_verify) [
            | inl verified ↦
                let e = c.verified appending shorter verified in
                ap result e ∙ rw (appending, shorter, verified, synced) (whole (rw e at sends))
            | inr trusted ↦
                let e = c.trusted appending shorter trusted in
                ap result e
                ∙ rw (appending, shorter, trusted, synced)
                    (answer-tail strong_checksum copts path old data_bytes fits.file_fits n
                      (ground (arith, shorter)) (rw e at sends))
          ]
        ]
      ]
