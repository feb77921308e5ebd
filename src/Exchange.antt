-- ===== src/Exchange.antt =====
-- The loops of internal/pipeline/sender.go and receiver.go over the file list, as two processes
-- that take turns in any order: the sender behind Walk and DetectHardLinks, the receiver with what
-- it writes into a store of file contents. Directories, symbolic links, attributes and reports
-- leave the contents alone: of them only the calls that may fail are there. No transfer begins from
-- a partial file.
pub mod Sequential
pub mod Phases
pub mod Finished
pub mod Contents
pub mod Guarded
mod Tests
use grsync.Base.{ℕ, zero, suc, Bool, true, false, not, ◌&&◌, ◌||◌, Option, none, some}
use grsync.Base.{
  List, [], ◌∷◌, ◌++◌, Bytes, length, if◌then◌else◌, same_bytes, Result, ok, err, panic,
}
use grsync.Base.Int.{ℤ, pos}
use grsync.Entry.{FileEntry, is_symlink}
use grsync.Blocks.{Signature}
use grsync.Host.{delta_message, FileList, SignatureMessage, DeltaMessage, Host, sendable}
use grsync.Delta.{DeltaOp, ApplyError}
use grsync.Compress.{CompressOptions, Zlib}
use grsync.Wire.{WireDelta, WireError, to_wire_delta_ops, from_wire_delta_ops}
use grsync.Sender.{AppendAction, AppendError, sender_ops}
use grsync.Receiver.{ReceiverOptions, choose_signature, new_content, is_skip, transferred}

unfoldable pub contains_path : Bytes → List Bytes → Bool
unfolding same_bytes
contains_path path [] = false
contains_path path (p ∷ paths) = same_bytes p path || contains_path path paths

-- Whether a path is a member of a group, but not its first. `group[1:]` of an empty group panics,
-- see `no_empty`.
unfoldable pub secondary : List (List Bytes) → Bytes → Bool
unfolding contains_path
secondary [] path = false
secondary ([] ∷ groups) path = secondary groups path
secondary ((first ∷ paths) ∷ groups) path = contains_path path paths || secondary groups path

-- Whether `group[1:]` is there for every group.
unfoldable pub no_empty : List (List Bytes) → Bool
no_empty [] = true
no_empty ([] ∷ groups) = false
no_empty ((first ∷ paths) ∷ groups) = no_empty groups

-- Whether both loops pass over an entry.
unfoldable pub passes : List (List Bytes) → FileEntry → Bool
unfolding secondary is_symlink
passes groups entry = entry.is_dir || (is_symlink entry || secondary groups entry.path)

-- The contents of the regular files under a root.
abbrev pub Store : Type 0
Store = Bytes → Option Bytes

unfoldable pub put : Store → Bytes → Bytes → Store
unfolding same_bytes
put store path content p = if same_bytes path p then some content else store p

abbrev pub content_or_empty : Option Bytes → Bytes
content_or_empty none = []
content_or_empty (some content) = content

abbrev pub is_some : Option Bytes → Bool
is_some none = false
is_some (some content) = true

-- `ApplyHardLinks` on the paths behind the first one; `none` if the first one is missing, also
-- because it stands in the group again and has been removed.
unfoldable pub link_paths : Store → Bytes → Option Bytes → List Bytes → Option Store
unfolding put same_bytes
link_paths store first source [] = some store
link_paths store first none (p ∷ paths) = none
link_paths store first (some content) (p ∷ paths) =
    let rest = link_paths (put store p content) first (some content) paths in
    if same_bytes p first then none else rest

unfoldable pub link_groups : Store → List (List Bytes) → Option Store
unfolding link_paths
link_groups store [] = some store
link_groups store ([] ∷ groups) = link_groups store groups
link_groups store ((first ∷ paths) ∷ groups) = elim (link_paths store first (store first) paths) [
  | none ↦ none
  | some linked ↦ link_groups linked groups
]

pub data SenderError : Type 0 where
  out_of_order unreadable sending : Bytes → SenderError
  sending_list no_group_tail : SenderError
  preparing : AppendError → SenderError
  -- No operations: `GenerateDelta` always returns, and a run-time panic ends the sender.
  no_operations : SenderError

pub data SenderState : Type 0 where
  listing : SenderState
  answering : List FileEntry → SenderState
  sender_failed : SenderError → SenderState

pub data ReceiverError : Type 0 where
  delta_out_of_order sending_signature refused : Bytes → ReceiverError
  decoding : WireError → ReceiverError
  applying : ApplyError → ReceiverError
  no_link crashed : ReceiverError

-- A receiver that waits for a delta knows the file's entry, whether it existed, its old content,
-- and the signature it has sent, with its action.
pub data ReceiverState : Type 0 where
  expecting finished : ReceiverState
  walking : List (List Bytes) → List FileEntry → ReceiverState
  waiting :
      List (List Bytes)
      → FileEntry
      → Bool
      → Bytes
      → AppendAction
      → Signature
      → List FileEntry
      → ReceiverState
  receiver_failed : ReceiverError → ReceiverState

-- Both processes, what is on its way between them, and the receiver's files.
pub record Session : Type 0 where
  pub sender : SenderState
  pub receiver : ReceiverState
  pub file_list : Option FileList
  pub signatures : List SignatureMessage
  pub deltas : List DeltaMessage
  pub store : Store

-- `read` is the sender's files.
module _ (strong_checksum : Bytes → Bytes) (z : Zlib) (host : Host) (copts : CompressOptions)
    (read : Store) where
  -- The operations, or the failure that ends the sender.
  unfoldable pub send_ops :
      FileEntry
      → List FileEntry
      → Option (Result AppendError (List DeltaOp))
      → SenderState × List DeltaMessage
  unfolding sendable
  send_ops entry rest none = (sender_failed no_operations, [])
  send_ops entry rest (some panic) = (sender_failed no_operations, [])
  send_ops entry rest (some (err e)) = (sender_failed (preparing e), [])
  send_ops entry rest (some (ok ops)) =
      if not (sendable host.deltas (delta_message z ops entry.path copts))
      then (sender_failed (sending entry.path), [])
      else (answering rest, delta_message z ops entry.path copts ∷ [])

  -- The answer to a signature for the entry at hand.
  unfoldable pub answer_signature :
      FileEntry → List FileEntry → SignatureMessage → SenderState × List DeltaMessage
  unfolding send_ops is_skip sender_ops
  answer_signature entry rest m =
      if not (same_bytes m.path entry.path)
      then (sender_failed (out_of_order m.path), [])
      else if is_skip m.action
      then send_ops entry rest (some (ok []))
      else (elim (read entry.path) [
        | none ↦ (sender_failed (unreadable entry.path), [])
        | some content ↦ send_ops entry rest (sender_ops strong_checksum m.action m.sig content)
      ])

  unfoldable pub sender_loop : List (List Bytes) → List FileEntry → Session → Option Session
  unfolding passes answer_signature
  sender_loop groups [] s = none
  sender_loop groups (entry ∷ rest) s =
      if passes groups entry
      then some (record s { sender = answering rest })
      else (elim s.signatures [
        | [] ↦ none
        | m ∷ signatures ↦
            (let (next, out) = answer_signature entry rest m in
              some (record s { sender = next; signatures = signatures; deltas = s.deltas ++ out }))
      ])

  -- The file list is sent, and then the members of its groups are looked for.
  unfoldable pub send_list : FileList → Session → Session
  unfolding sendable no_empty
  send_list list s =
      if not (sendable host.lists list)
      then record s { sender = sender_failed sending_list }
      else if no_empty list.groups
      then record s { sender = answering list.entries; file_list = some list }
      else record s { sender = sender_failed no_group_tail; file_list = some list }

  -- A step of the sender; `none` where it waits or has ended.
  unfoldable pub sender_next : FileList → Session → Option Session
  unfolding sender_loop send_list
  sender_next list s = elim s.sender [
    | listing ↦ some (send_list list s)
    | answering rest ↦ sender_loop list.groups rest s
    | sender_failed e ↦ none
  ]

  module _ (ropts : ReceiverOptions) where
    -- Whether a call fails that the receiver makes for an entry which the loops pass over. It makes
    -- none for a member of a group.
    unfoldable pub blocked : FileEntry → Bool
    unfolding is_symlink
    blocked entry =
        (entry.is_dir || is_symlink entry)
        && (host.unreadable entry || (not ropts.dry_run && host.unwritable entry))

    unfoldable pub request_file : List (List Bytes) → FileEntry → List FileEntry → Session → Session
    unfolding choose_signature sendable
    request_file groups entry rest s =
        let old = content_or_empty (s.store entry.path) in
        let existed = is_some (s.store entry.path) in
        let (action, sig) = choose_signature strong_checksum ropts existed old entry.size in
        let m : SignatureMessage = record { path = entry.path; sig = sig; action = action } in
        if host.unreadable entry
        then record s { receiver = receiver_failed (refused entry.path) }
        else if not (sendable host.signatures m)
        then record s { receiver = receiver_failed (sending_signature entry.path) }
        else record s {
          receiver = waiting groups entry existed old action sig rest;
          signatures = s.signatures ++ (m ∷ []);
        }

    -- The content as it is written, which is not the case in a dry run or where nothing changed.
    unfoldable pub commit : Store → FileEntry → Bool → Bytes → AppendAction → Bytes → Store
    unfolding put transferred
    commit store entry existed old action content =
        if not ropts.dry_run && transferred action existed old content
        then put store entry.path content
        else store

    unfoldable pub receive_content :
        List (List Bytes)
        → FileEntry
        → Bool
        → Bytes
        → AppendAction
        → List FileEntry
        → Result ApplyError Bytes
        → Session
        → Session
    unfolding commit
    receive_content groups entry existed old action rest (ok content) s =
        if not ropts.dry_run && host.unwritable entry
        then record s { receiver = receiver_failed (refused entry.path) }
        else record s {
          receiver = walking groups rest;
          store = commit s.store entry existed old action content;
        }
    receive_content groups entry existed old action rest (err e) s = record s {
      receiver = receiver_failed (applying e);
    }
    receive_content groups entry existed old action rest panic s = record s {
      receiver = receiver_failed crashed;
    }

    unfoldable pub receive_delta :
        List (List Bytes)
        → FileEntry
        → Bool
        → Bytes
        → AppendAction
        → Signature
        → List FileEntry
        → DeltaMessage
        → Session
        → Session
    unfolding receive_content from_wire_delta_ops new_content
    receive_delta groups entry existed old action sig rest m s =
        elim (from_wire_delta_ops z m.delta) [
          | err e ↦ record s { receiver = receiver_failed (decoding e) }
          | panic ↦ record s { receiver = receiver_failed crashed }
          | ok ops ↦
              if not (same_bytes m.path entry.path)
              then record s { receiver = receiver_failed (delta_out_of_order m.path) }
              else receive_content groups entry existed old action rest
                  (new_content action old ops sig) s
        ]

    -- The pass over the hard-link groups that ends the loop.
    unfoldable pub finish : List (List Bytes) → Session → Session
    unfolding link_groups
    finish groups s =
        if ropts.dry_run
        then record s { receiver = finished }
        else (elim (link_groups s.store groups) [
          | none ↦ record s { receiver = receiver_failed no_link }
          | some store ↦ record s { receiver = finished; store = store }
        ])

    unfoldable pub receive_list : FileList → Session → Session
    unfolding no_empty
    receive_list list s =
        if no_empty list.groups
        then record s { receiver = walking list.groups list.entries; file_list = none }
        else record s { receiver = receiver_failed crashed; file_list = none }

    unfoldable pub pass_entry : List (List Bytes) → FileEntry → List FileEntry → Session → Session
    unfolding blocked
    pass_entry groups entry rest s =
        if blocked entry
        then record s { receiver = receiver_failed (refused entry.path) }
        else record s { receiver = walking groups rest }

    -- A step of the receiver; `none` where it waits or has ended.
    unfoldable pub receiver_next : Session → Option Session
    unfolding passes request_file receive_delta finish receive_list pass_entry
    receiver_next s = elim s.receiver [
      | expecting ↦ elim s.file_list [ none ↦ none | some list ↦ some (receive_list list s) ]
      | finished ↦ none
      | receiver_failed e ↦ none
      | walking groups entries ↦ elim entries [
        | [] ↦ some (finish groups s)
        | entry ∷ rest ↦
            if passes groups entry
            then some (pass_entry groups entry rest s)
            else some (request_file groups entry rest s)
      ]
      | waiting groups entry existed old action sig rest ↦ elim s.deltas [
        | [] ↦ none
        | m ∷ deltas ↦ some (
            receive_delta groups entry existed old action sig rest m (record s { deltas = deltas }))
      ]
    ]
