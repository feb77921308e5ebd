-- ===== src/Exchange/Phases/Received.antt =====
-- A step of the receiver leads from phase to phase.
use grsync.Base.{
  ◌+◌, ◌*◌, ◌≡◌, refl, ◌∙◌, arith, inl, inr, Bool-cases, Option-cases, some_injective,
}
use grsync.Base.{Bool, false, not, ◌&&◌, none, some, List, [], ◌∷◌, Bytes, length, same_bytes_refl}
use grsync.Blocks.{Signature}
use grsync.Compress.{CompressOptions, Zlib}
use grsync.Sender.{AppendAction}
use grsync.Receiver.{ReceiverOptions, choose_signature}
use grsync.Wire.{to_wire_delta_ops}
use grsync.Entry.{FileEntry}
use grsync.Exchange.{
  passes, Store, content_or_empty, is_some, answering, ReceiverState, finished, walking, Session,
  request_file, commit, receive_content, receive_delta, finish, receiver_next, receive_list,
  pass_entry, blocked,
}
use grsync.Host.{Host, FileList}
use grsync.Exchange.Sequential.{
  sync_file, sync_all, IsDelivery, answer-IsDelivery, sync_file-IsSynced,
}
use grsync.Exchange.Phases.{
  pending, pending_nil, pending_passed, pending_kept, weight, IsPhase, unsent, sent, between,
  requested, answered, done, IsProgress,
}

module _ (strong_checksum : Bytes → Bytes) (z : Zlib) (host : Host) (copts : CompressOptions)
    (read : Store) (ropts : ReceiverOptions) (list : FileList) (goal : Store) where
  abbrev Phase : Session → Type 0
  Phase = IsPhase strong_checksum z host copts read ropts list goal

  abbrev Progress : Session → Session → Type 0
  Progress = IsProgress strong_checksum z host copts read ropts list goal

  finish-goal :
      (s : Session)
      → sync_all strong_checksum z host copts read ropts list.groups s.store [] ≡ some goal
      → finish strong_checksum z host copts read ropts list.groups s
        ≡ record s { receiver = finished; store = goal }
  unfolding finish sync_all
  finish-goal s h = elim (Bool-cases ropts.dry_run) [
    | inl dry ↦ let e = some_injective (rw (dry, sync_all) at h) in rw (dry, ← e) refl
    | inr wet ↦ rw (wet, finish, rw (wet, sync_all) at h) refl
  ]

  receive_delta-IsDelivery :
      (s : Session) (entry : FileEntry) (existed : Bool) (old source content : Bytes)
      (action : AppendAction) (sig : Signature) (left : List FileEntry)
      → (not ropts.dry_run && host.unwritable entry) ≡ false
      → (d : IsDelivery strong_checksum z host copts entry.path old source content action sig)
      → receive_delta strong_checksum z host copts read ropts list.groups entry existed old action
          sig left
          (record { path = entry.path; delta = to_wire_delta_ops z d.ops entry.path copts })
          s
        ≡ record s {
          receiver = walking list.groups left;
          store =
              commit strong_checksum z host copts read ropts s.store entry existed old action
                content;
        }
  unfolding receive_delta receive_content
  receive_delta-IsDelivery s entry existed old source content action sig left w d =
      rw (d.decoded, receive_delta, same_bytes_refl entry.path, d.applied, w) refl

  request_file-IsPhase :
      (rest left : List FileEntry) (store next : Store) (entry : FileEntry)
      → sync_file strong_checksum z host copts read ropts store entry ≡ some next
      → sync_all strong_checksum z host copts read ropts list.groups next left ≡ some goal
      → pending list.groups rest ≡ entry ∷ pending list.groups left
      → (earlier : ReceiverState)
      → Phase (
          request_file strong_checksum z host copts read ropts list.groups entry left (record {
            sender = answering rest;
            receiver = earlier;
            file_list = none;
            signatures = [];
            deltas = [];
            store = store;
          }))
  unfolding request_file
  request_file-IsPhase rest left store next entry synced h same earlier =
      let one =
        sync_file-IsSynced strong_checksum z host copts read ropts store next entry synced in
      let old = content_or_empty (store entry.path) in
      let existed = is_some (store entry.path) in
      let chosen = choose_signature strong_checksum ropts existed old entry.size in
      let d =
        answer-IsDelivery strong_checksum z host copts entry.path old one.source one.content
          chosen.0 chosen.1 one.answered in
      rw (one.readable, d.requested, request_file)
        (requested rest left store entry existed old chosen.0 chosen.1 one.source one.content
          (rw (← one.committed) h) same one.writable one.stored d)

  request_file-weight :
      (rest left : List FileEntry) (store next : Store) (entry : FileEntry)
      (earlier : ReceiverState)
      → sync_file strong_checksum z host copts read ropts store entry ≡ some next
      → weight (length list.entries) (
          request_file strong_checksum z host copts read ropts list.groups entry left (record {
            sender = answering rest;
            receiver = earlier;
            file_list = none;
            signatures = [];
            deltas = [];
            store = store;
          }))
        ≡ length rest + (2 * length left + 2)
  unfolding request_file weight
  request_file-weight rest left store next entry earlier synced =
      let one =
        sync_file-IsSynced strong_checksum z host copts read ropts store next entry synced in
      let old = content_or_empty (store entry.path) in
      let existed = is_some (store entry.path) in
      let chosen = choose_signature strong_checksum ropts existed old entry.size in
      let d =
        answer-IsDelivery strong_checksum z host copts entry.path old one.source one.content
          chosen.0 chosen.1 one.answered in
      rw (one.readable, d.requested, request_file) refl

  pub receiver_next-IsProgress :
      (s t : Session)
      → Phase s
      → receiver_next strong_checksum z host copts read ropts s ≡ some t
      → Progress s t
  unfolding receiver_next receive_list pass_entry weight sync_all
  receiver_next-IsProgress s t (unsent store h) e = absurd (cc e)
  receiver_next-IsProgress s t (sent rest store h same full) e =
      rw (← some_injective (rw (full, receive_list) at e))
        (between rest list.entries store h same, omega arith)
  receiver_next-IsProgress s t (between rest [] store h same) e =
      rw (← some_injective e, finish-goal s h)
        (done rest (same ∙ pending_nil list.groups), omega arith)
  receiver_next-IsProgress s t (between rest (x ∷ left) store h same) e =
      elim (Bool-cases (passes list.groups x)) [
        | inl passed ↦ elim (Bool-cases (blocked strong_checksum z host copts read ropts x)) [
          | inl refused ↦ absurd (cc (rw (passed, sync_all, refused) at h))
          | inr free ↦ rw (← some_injective (rw (passed, pass_entry, free) at e)) (
            between rest left store (rw (passed, sync_all, free) at h)
                (same ∙ pending_passed list.groups x left passed),
            omega arith,
          )
        ]
        | inr kept ↦
            elim (Option-cases (sync_file strong_checksum z host copts read ropts store x)) [
              | inl failed ↦ absurd (cc (rw (kept, sync_all, failed) at h))
              | inr (next, synced) ↦ rw (← some_injective (rw (kept) at e)) (
                request_file-IsPhase rest left store next x synced
                    (rw (kept, sync_all, synced) at h) (same ∙ pending_kept list.groups x left kept)
                    (walking list.groups (x ∷ left)),
                omega (
                  arith,
                  request_file-weight rest left store next x (walking list.groups (x ∷ left))
                      synced,
                ),
              )
            ]
      ]
  receiver_next-IsProgress s t
        (requested rest left store entry existed old action sig source content h same w stored d)
        e =
      absurd (cc e)
  receiver_next-IsProgress s t
        (answered rest left store entry existed old action sig source content h same w d) e =
      rw
        (
          ← some_injective e,
          receive_delta-IsDelivery (record s { deltas = [] }) entry existed old source content
              action sig left w d,
        )
        (
          between rest left
              (commit strong_checksum z host copts read ropts store entry existed old action
                content)
              h same,
          omega arith,
        )
  receiver_next-IsProgress s t (done rest none_left) e = absurd (cc e)
