-- ===== src/Exchange/Phases/Sent.antt =====
-- A step of the sender leads from phase to phase.
use grsync.Base.{
  suc, ◌+◌, ◌*◌, ◌<◌, ◌≡◌, refl, sym, ◌∙◌, arith, inl, inr, Bool-cases, some_injective,
  ok_injective,
}
use grsync.Base.{Bool, false, none, some, List, [], ◌∷◌, ◌++◌, Bytes, length, same_bytes_refl}
use grsync.Blocks.{Signature}
use grsync.Compress.{CompressOptions, Zlib}
use grsync.Sender.{AppendAction, append_none, append_tail, append_skip, sender_ops}
use grsync.Receiver.{ReceiverOptions, is_skip}
use grsync.Wire.{to_wire_delta_ops}
use grsync.Entry.{FileEntry}
use grsync.Exchange.{
  passes, Store, answering, waiting, Session, send_ops, answer_signature, sender_loop, sender_next,
  commit,
}
use grsync.Host.{Host, FileList, SignatureMessage}
use grsync.Base.{not, ◌&&◌}
use grsync.Exchange.{send_list}
use grsync.Exchange.Sequential.{sync_all, sync_list-some, IsDelivery}
use grsync.Exchange.Phases.{
  pending, pending_nil, pending_passed, pending_kept, cons_injective, weight, IsPhase, unsent, sent,
  between, requested, answered, done, IsProgress,
}

module _ (strong_checksum : Bytes → Bytes) (z : Zlib) (host : Host) (copts : CompressOptions)
    (read : Store) (ropts : ReceiverOptions) (list : FileList) (goal : Store) where
  abbrev Phase : Session → Type 0
  Phase = IsPhase strong_checksum z host copts read ropts list goal

  abbrev Progress : Session → Session → Type 0
  Progress = IsProgress strong_checksum z host copts read ropts list goal

  -- A sender without a signature to answer passes over an entry at most.
  sender_loop-passes :
      (rest : List FileEntry) (s t : Session)
      → s.signatures ≡ []
      → sender_loop strong_checksum z host copts read list.groups rest s ≡ some t
      → (next : List FileEntry) × (t ≡ record s { sender = answering next })
        × (pending list.groups next ≡ pending list.groups rest)
        × (length next < length rest)
  unfolding sender_loop
  sender_loop-passes [] s t none_sent e = absurd (cc e)
  sender_loop-passes (entry ∷ rest) s t none_sent e = elim (Bool-cases (passes list.groups entry)) [
    | inl passed ↦ (
      rest,
      sym (some_injective (rw (passed, sender_loop) at e)),
      sym (pending_passed list.groups entry rest passed),
      omega arith,
    )
    | inr kept ↦ absurd (cc (rw (kept, none_sent, sender_loop) at e))
  ]

  answer_signature-IsDelivery :
      (entry : FileEntry) (rest : List FileEntry) (old source content : Bytes)
      (action : AppendAction) (sig : Signature)
      → read entry.path ≡ some source
      → (d : IsDelivery strong_checksum z host copts entry.path old source content action sig)
      → answer_signature strong_checksum z host copts read entry rest
          (record { path = entry.path; sig = sig; action = action })
        ≡ (
          answering rest,
          record { path = entry.path; delta = to_wire_delta_ops z d.ops entry.path copts } ∷ [],
        )
  unfolding answer_signature send_ops sender_ops is_skip
  answer_signature-IsDelivery entry rest old source content append_none sig stored d =
      rw (same_bytes_refl entry.path, stored, d.made, d.sent) refl
  answer_signature-IsDelivery entry rest old source content append_tail sig stored d =
      let made = d.made in rw (same_bytes_refl entry.path, stored, made, d.sent) refl
  answer_signature-IsDelivery entry rest old source content append_skip sig stored d =
      let empty_ops : [] ≡ d.ops = ok_injective (some_injective d.made) in
      rw (same_bytes_refl entry.path, (rw (← empty_ops) at d.sent), ← empty_ops) refl

  sender_loop-answers :
      (entry : FileEntry) (rest : List FileEntry) (s : Session) (m : SignatureMessage)
      (signatures : List SignatureMessage)
      → passes list.groups entry ≡ false
      → sender_loop strong_checksum z host copts read list.groups
          (entry ∷ rest)
          (record s { signatures = m ∷ signatures })
        ≡ some (record s {
          sender = (answer_signature strong_checksum z host copts read entry rest m).0;
          signatures = signatures;
          deltas = s.deltas ++ (answer_signature strong_checksum z host copts read entry rest m).1;
        })
  unfolding sender_loop
  sender_loop-answers entry rest s m signatures kept = rw (kept, sender_loop) refl

  -- A sender at the entry of the signature that has come in.
  requested_kept :
      (x : FileEntry) (rest left : List FileEntry) (store : Store) (entry : FileEntry)
      (existed : Bool) (old : Bytes) (action : AppendAction) (sig : Signature)
      (source content : Bytes) (t : Session)
      → sync_all strong_checksum z host copts read ropts list.groups
          (commit strong_checksum z host copts read ropts store entry existed old action content)
          left
        ≡ some goal
      → pending list.groups (x ∷ rest) ≡ entry ∷ pending list.groups left
      → (not ropts.dry_run && host.unwritable entry) ≡ false
      → read entry.path ≡ some source
      → IsDelivery strong_checksum z host copts entry.path old source content action sig
      → passes list.groups x ≡ false
      → sender_loop strong_checksum z host copts read list.groups (x ∷ rest) (record {
        sender = answering (x ∷ rest);
        receiver = waiting list.groups entry existed old action sig left;
        file_list = none;
        signatures = record { path = entry.path; sig = sig; action = action } ∷ [];
        deltas = [];
        store = store;
      })
        ≡ some t
      → Phase t × (weight (length list.entries) t < suc (length rest) + (2 * length left + 2))
  unfolding weight
  requested_kept x rest left store entry existed old action sig source content t h same w stored d
        kept e =
      let m : SignatureMessage = record { path = entry.path; sig = sig; action = action } in
      let (same_entry, tail) = cons_injective (sym (pending_kept list.groups x rest kept) ∙ same) in
      let reply : answer_signature strong_checksum z host copts read x rest m ≡ (
        answering rest,
        record { path = entry.path; delta = to_wire_delta_ops z d.ops entry.path copts } ∷ [],
      ) =
        rw same_entry
          (answer_signature-IsDelivery entry rest old source content action sig stored d) in
      let s : Session = record {
        sender = answering (x ∷ rest);
        receiver = waiting list.groups entry existed old action sig left;
        file_list = none;
        signatures = m ∷ [];
        deltas = [];
        store = store;
      } in
      rw (← some_injective (rw (reply) at (sym (sender_loop-answers x rest s m [] kept) ∙ e))) (
        answered rest left store entry existed old action sig source content h tail w d,
        omega arith,
      )

  pub sender_next-IsProgress :
      (s t : Session)
      → Phase s
      → sender_next strong_checksum z host copts read list s ≡ some t
      → Progress s t
  unfolding sender_next send_list weight
  sender_next-IsProgress s t (unsent store h) e =
      let (fits, full, run) =
        sync_list-some strong_checksum z host copts read ropts list store goal h in
      rw (← some_injective (rw (fits, full, send_list) at e))
        (sent list.entries store run refl full, omega arith)
  sender_next-IsProgress s t (sent rest store h same full) e =
      let (next, eq, kept, shorter) = sender_loop-passes rest s t refl e in
      rw eq (sent next store h (kept ∙ same) full, omega arith)
  sender_next-IsProgress s t (between rest left store h same) e =
      let (next, eq, kept, shorter) = sender_loop-passes rest s t refl e in
      rw eq (between next left store h (kept ∙ same), omega arith)
  sender_next-IsProgress s t
        (requested [] left store entry existed old action sig source content h same w stored d) e =
      absurd (cc (sym (pending_nil list.groups) ∙ same))
  sender_next-IsProgress s t
        (requested
          (x ∷ rest)
          left
          store
          entry
          existed
          old
          action
          sig
          source
          content
          h
          same
          w
          stored
          d)
        e =
      elim (Bool-cases (passes list.groups x)) [
        | inl passed ↦ rw (← some_injective (rw (passed, sender_loop) at e)) (
          requested rest left store entry existed old action sig source content h
              (sym (pending_passed list.groups x rest passed) ∙ same) w stored d,
          omega arith,
        )
        | inr kept ↦
            requested_kept x rest left store entry existed old action sig source content t h same w
              stored d kept e
      ]
  sender_next-IsProgress s t
        (answered rest left store entry existed old action sig source content h same w d) e =
      let (next, eq, kept, shorter) = sender_loop-passes rest s t refl e in
      rw eq (
        answered next left store entry existed old action sig source content h (kept ∙ same) w d,
        omega arith,
      )
  sender_next-IsProgress s t (done rest none_left) e =
      let (next, eq, kept, shorter) = sender_loop-passes rest s t refl e in
      rw eq (done next (kept ∙ none_left), omega arith)
