-- ===== src/Exchange/Sequential.antt =====
-- A sync as one process without messages: each file in turn, then the hard links.
use grsync.Base.{
  Bool, true, false, Option, none, some, List, [], ◌∷◌, Bytes, if◌then◌else◌, Result, ok, err,
  panic,
}
use grsync.Base.{
  ◌≡◌, refl, sym, not, ◌&&◌, Bool-cases, same_bytes, same_bytes_refl, inl, inr, Option-cases,
  some_injective, bind-eq-ok,
}
use grsync.Conn.{wrap_result, wrap_result-ok}
use grsync.Blocks.{Signature}
use grsync.Delta.{DeltaOp}
use grsync.Host.{FileList, Host, delta_message, sendable}
use grsync.Compress.{CompressOptions, Zlib}
use grsync.Wire.{to_wire_delta_ops, from_wire_delta_ops}
use grsync.Sender.{AppendAction, sender_ops}
use grsync.Receiver.{ReceiverOptions, choose_signature, new_content}
use grsync.Receiver.Transfer.{
  TransferError, preparing, sending_delta, out_of_order, receiving, applying, receive_message,
  receive_ops, answer,
}
use grsync.Entry.{FileEntry}
use grsync.Exchange.{
  passes, Store, content_or_empty, is_some, link_groups, commit, blocked, no_empty,
}

module _ (strong_checksum : Bytes → Bytes) (z : Zlib) (host : Host) (copts : CompressOptions)
    (read : Store) (ropts : ReceiverOptions) where
  unfoldable pub commit_result :
      Store → FileEntry → Bool → Bytes → AppendAction → Result TransferError Bytes → Option Store
  unfolding commit
  commit_result store entry existed old action (ok content) =
      if not ropts.dry_run && host.unwritable entry
      then none
      else some
          (commit strong_checksum z host copts read ropts store entry existed old action content)
  commit_result store entry existed old action (err e) = none
  commit_result store entry existed old action panic = none

  -- A file that passes from the sender's files to the receiver's store; `none` if it fails.
  unfoldable pub sync_file : Store → FileEntry → Option Store
  unfolding answer choose_signature commit_result
  sync_file store entry =
      let old = content_or_empty (store entry.path) in
      let existed = is_some (store entry.path) in
      let chosen = choose_signature strong_checksum ropts existed old entry.size in
      if host.unreadable entry then none else (elim (read entry.path) [
        | none ↦ none
        | some source ↦ elim (answer strong_checksum z host copts entry.path old source chosen) [
          | none ↦ none
          | some result ↦ commit_result store entry existed old chosen.0 result
        ]
      ])

  unfoldable pub sync_all : List (List Bytes) → Store → List FileEntry → Option Store
  unfolding sync_file passes blocked link_groups
  sync_all groups store [] = if ropts.dry_run then some store else link_groups store groups
  sync_all groups store (entry ∷ rest) = elim (passes groups entry) [
    | true ↦
        let after = sync_all groups store rest in
        if blocked strong_checksum z host copts read ropts entry then none else after
    | false ↦ elim (sync_file store entry) [ none ↦ none | some next ↦ sync_all groups next rest ]
  ]

-- A sync of a whole list, of which no group is empty and which fits in a frame.
module _ (strong_checksum : Bytes → Bytes) (z : Zlib) (host : Host) (copts : CompressOptions)
    (read : Store) (ropts : ReceiverOptions) where
  unfoldable pub sync_list : FileList → Store → Option Store
  unfolding sendable no_empty sync_all
  sync_list list store =
      if sendable host.lists list && no_empty list.groups
      then sync_all strong_checksum z host copts read ropts list.groups store list.entries
      else none

  pub sync_list-some :
      (list : FileList) (store goal : Store)
      → sync_list list store ≡ some goal
      → (sendable host.lists list ≡ true)
        × (no_empty list.groups ≡ true)
        × (sync_all strong_checksum z host copts read ropts list.groups store list.entries
            ≡ some goal)
  unfolding sync_list
  sync_list-some list store goal h = elim (Bool-cases (sendable host.lists list)) [
    | inr large ↦ absurd (cc (rw (large, sync_list) at h))
    | inl fits ↦ elim (Bool-cases (no_empty list.groups)) [
      | inr lacking ↦ absurd (cc (rw (fits, lacking, sync_list) at h))
      | inl full ↦ (fits, full, rw (fits, full, sync_list) at h)
    ]
  ]

-- The steps of a file that arrives: the operations, their form on the wire, the content.
pub record IsDelivery (strong_checksum : Bytes → Bytes) (z : Zlib) (host : Host)
    (copts : CompressOptions) (path old source content : Bytes) (action : AppendAction)
    (sig : Signature) : Type 0 where
  pub ops : List DeltaOp
  pub received : List DeltaOp
  pub made : sender_ops strong_checksum action sig source ≡ some (ok ops)
  pub requested :
      sendable host.signatures (record { path = path; sig = sig; action = action }) ≡ true
  pub sent : sendable host.deltas (delta_message z ops path copts) ≡ true
  pub decoded : from_wire_delta_ops z (to_wire_delta_ops z ops path copts) ≡ ok received
  pub applied : new_content action old received sig ≡ ok content

module _ (strong_checksum : Bytes → Bytes) (z : Zlib) (host : Host) (copts : CompressOptions) where
  pub answer-IsDelivery :
      (path old source content : Bytes) (action : AppendAction) (sig : Signature)
      → answer strong_checksum z host copts path old source (action, sig) ≡ some (ok content)
      → IsDelivery strong_checksum z host copts path old source content action sig
  unfolding answer receive_ops receive_message
  answer-IsDelivery path old source content action sig h =
      elim (Bool-cases
        (sendable host.signatures (record { path = path; sig = sig; action = action }))) [
          | inr large ↦ absurd (cc (rw (large, answer) at h))
          | inl requested ↦ elim (Option-cases (sender_ops strong_checksum action sig source)) [
            | inl none_made ↦ absurd (cc (rw (requested, none_made, answer) at h))
            | inr (outcome, made) ↦
                let run = some_injective (rw (requested, made, answer) at h) in
                let (ops, got_ops, rest) =
                  bind-eq-ok (wrap_result preparing outcome)
                    (λ ops.
                      if not (sendable host.deltas (delta_message z ops path copts))
                      then err (sending_delta path)
                      else receive_message z action sig old path (delta_message z ops path copts))
                    run in
                elim (Bool-cases (sendable host.deltas (delta_message z ops path copts))) [
                  | inr large ↦ absurd (cc (rw (large) at rest))
                  | inl sent ↦
                      let (received, got_received, last) =
                        bind-eq-ok
                          (wrap_result receiving
                            (from_wire_delta_ops z (to_wire_delta_ops z ops path copts)))
                          (λ received.
                            if not (same_bytes path path)
                            then err (out_of_order path)
                            else wrap_result applying (new_content action old received sig))
                          (rw (sent, receive_message) at rest) in
                      record {
                        ops = ops;
                        received = received;
                        made = rw (← wrap_result-ok preparing outcome ops got_ops) made;
                        requested = requested;
                        sent = sent;
                        decoded =
                            wrap_result-ok receiving
                              (from_wire_delta_ops z (to_wire_delta_ops z ops path copts)) received
                              got_received;
                        applied =
                            wrap_result-ok applying (new_content action old received sig) content
                              (rw (same_bytes_refl path) at last);
                      }
                ]
          ]
        ]

-- A file that is synced.
pub record IsSynced (strong_checksum : Bytes → Bytes) (z : Zlib) (host : Host)
    (copts : CompressOptions) (read : Store) (ropts : ReceiverOptions) (store : Store)
    (entry : FileEntry) (next : Store) : Type 0 where
  pub source : Bytes
  pub content : Bytes
  pub readable : host.unreadable entry ≡ false
  pub writable : (not ropts.dry_run && host.unwritable entry) ≡ false
  pub stored : read entry.path ≡ some source
  pub answered :
      answer strong_checksum z host copts entry.path (content_or_empty (store entry.path)) source (
        choose_signature strong_checksum ropts
          (is_some (store entry.path))
          (content_or_empty (store entry.path))
          entry.size)
      ≡ some (ok content)
  pub committed :
      next
      ≡ commit strong_checksum z host copts read ropts store entry
          (is_some (store entry.path))
          (content_or_empty (store entry.path))
          (choose_signature strong_checksum ropts
            (is_some (store entry.path))
            (content_or_empty (store entry.path))
            entry.size).0
          content

module _ (strong_checksum : Bytes → Bytes) (z : Zlib) (host : Host) (copts : CompressOptions)
    (read : Store) (ropts : ReceiverOptions) where
  commit_result-some :
      (store : Store) (entry : FileEntry) (existed : Bool) (old : Bytes) (action : AppendAction)
      (result : Result TransferError Bytes) (next : Store)
      → commit_result strong_checksum z host copts read ropts store entry existed old action result
        ≡ some next
      → (content : Bytes) × (result ≡ ok content)
        × ((not ropts.dry_run && host.unwritable entry) ≡ false)
        × (next
            ≡ commit strong_checksum z host copts read ropts store entry existed old action content)
  unfolding commit_result
  commit_result-some store entry existed old action (ok content) next h =
      elim (Bool-cases (not ropts.dry_run && host.unwritable entry)) [
        | inl refused ↦ absurd (cc (rw (refused, commit_result) at h))
        | inr writable ↦
            (content, refl, writable, sym (some_injective (rw (writable, commit_result) at h)))
      ]
  commit_result-some store entry existed old action (err e) next h = absurd (cc h)
  commit_result-some store entry existed old action panic next h = absurd (cc h)

  pub sync_file-IsSynced :
      (store next : Store) (entry : FileEntry)
      → sync_file strong_checksum z host copts read ropts store entry ≡ some next
      → IsSynced strong_checksum z host copts read ropts store entry next
  unfolding sync_file
  sync_file-IsSynced store next entry h =
      let old = content_or_empty (store entry.path) in
      let chosen =
        choose_signature strong_checksum ropts (is_some (store entry.path)) old entry.size in
      elim (Bool-cases (host.unreadable entry)) [
        | inl refused ↦ absurd (cc (rw (refused, sync_file) at h))
        | inr readable ↦ elim (Option-cases (read entry.path)) [
          | inl missing ↦ absurd (cc (rw (readable, missing, sync_file) at h))
          | inr (source, stored) ↦
              elim (Option-cases
                (answer strong_checksum z host copts entry.path old source chosen)) [
                  | inl stuck ↦ absurd (cc (rw (readable, stored, stuck, sync_file) at h))
                  | inr (result, answered) ↦
                      let (content, done, writable, committed) =
                        commit_result-some store entry (is_some (store entry.path)) old chosen.0
                          result next (rw (readable, stored, answered, sync_file) at h) in
                      record {
                        source = source;
                        content = content;
                        readable = readable;
                        writable = writable;
                        stored = stored;
                        answered = rw (← done) answered;
                        committed = committed;
                      }
                ]
        ]
      ]
