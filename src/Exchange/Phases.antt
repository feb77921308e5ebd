-- ===== src/Exchange/Phases.antt =====
-- The states that a sync goes through.
pub mod Sent
pub mod Received
use grsync.Base.{
  ℕ, suc, ◌+◌, ◌*◌, ◌<◌, ◌≡◌, refl, sym, ◌∙◌, arith, inl, inr, Bool-cases, Option-cases,
  some_injective, ok_injective,
}
use grsync.Base.{
  Bool, true, false, none, some, List, [], ◌∷◌, ◌++◌, Bytes, length, if◌then◌else◌, same_bytes_refl,
}
use grsync.Blocks.{Signature}
use grsync.Compress.{CompressOptions, Zlib}
use grsync.Sender.{AppendAction, append_none, append_tail, append_skip, sender_ops}
use grsync.Receiver.{ReceiverOptions, choose_signature, is_skip}
use grsync.Wire.{to_wire_delta_ops}
use grsync.Entry.{FileEntry}
use grsync.Exchange.{
  passes, Store, content_or_empty, is_some, SenderState, listing, answering, sender_failed,
  ReceiverState, expecting, finished, walking, waiting, receiver_failed, Session, send_ops,
  answer_signature, sender_loop, sender_next, request_file, commit, receive_content, receive_delta,
  finish, receiver_next,
}
use grsync.Host.{Host, FileList, SignatureMessage}
use grsync.Base.{not, ◌&&◌}
use grsync.Exchange.{no_empty}
use grsync.Exchange.Sequential.{
  sync_list, sync_file, sync_all, IsDelivery, answer-IsDelivery, sync_file-IsSynced,
}

-- The entries whose files are exchanged.
unfoldable pub pending : List (List Bytes) → List FileEntry → List FileEntry
unfolding passes
pending groups [] = []
pending groups (entry ∷ rest) =
    if passes groups entry then pending groups rest else entry ∷ pending groups rest

pub pending_nil : (groups : List (List Bytes)) → pending groups [] ≡ []
unfolding pending
pending_nil groups = refl

pub pending_passed :
    (groups : List (List Bytes)) (entry : FileEntry) (rest : List FileEntry)
    → passes groups entry ≡ true
    → pending groups (entry ∷ rest) ≡ pending groups rest
unfolding pending
pending_passed groups entry rest h = rw h refl

pub pending_kept :
    (groups : List (List Bytes)) (entry : FileEntry) (rest : List FileEntry)
    → passes groups entry ≡ false
    → pending groups (entry ∷ rest) ≡ entry ∷ pending groups rest
unfolding pending
pending_kept groups entry rest h = rw h refl

pub cons_injective : {A : Type 0} {x y : A} {xs ys : List A} → x ∷ xs ≡ y ∷ ys → (x ≡ y) × (xs ≡ ys)
cons_injective h = (cc, cc)

-- What is left to do, for a list of a given length.
unfoldable pub sender_weight : ℕ → SenderState → ℕ
sender_weight n listing = n + 1
sender_weight n (answering rest) = length rest
sender_weight n (sender_failed e) = 0

unfoldable pub receiver_weight : ℕ → ReceiverState → ℕ
receiver_weight n expecting = 2 * n + 2
receiver_weight n finished = 0
receiver_weight n (walking groups rest) = 2 * length rest + 1
receiver_weight n (waiting groups entry existed old action sig rest) = 2 * length rest + 2
receiver_weight n (receiver_failed e) = 0

unfoldable pub weight : ℕ → Session → ℕ
unfolding sender_weight receiver_weight
weight n s = sender_weight n s.sender + receiver_weight n s.receiver

-- Before the sync.
abbrev pub start : Store → Session
start store = record {
  sender = listing;
  receiver = expecting;
  file_list = none;
  signatures = [];
  deltas = [];
  store = store;
}

module _ (strong_checksum : Bytes → Bytes) (z : Zlib) (host : Host) (copts : CompressOptions)
    (read : Store) (ropts : ReceiverOptions) (list : FileList) (goal : Store) where
  -- `goal` is what the sequential sync makes of what is left to do.
  pub data IsPhase : Session → Type 0 where
    unsent :
        (store : Store)
        → sync_list strong_checksum z host copts read ropts list store ≡ some goal
        → IsPhase (start store)
    sent :
        (rest : List FileEntry) (store : Store)
        → sync_all strong_checksum z host copts read ropts list.groups store list.entries
          ≡ some goal
        → pending list.groups rest ≡ pending list.groups list.entries
        → no_empty list.groups ≡ true
        → IsPhase (record {
          sender = answering rest;
          receiver = expecting;
          file_list = some list;
          signatures = [];
          deltas = [];
          store = store;
        })
    between :
        (rest left : List FileEntry) (store : Store)
        → sync_all strong_checksum z host copts read ropts list.groups store left ≡ some goal
        → pending list.groups rest ≡ pending list.groups left
        → IsPhase (record {
          sender = answering rest;
          receiver = walking list.groups left;
          file_list = none;
          signatures = [];
          deltas = [];
          store = store;
        })
    requested :
        (rest left : List FileEntry) (store : Store) (entry : FileEntry) (existed : Bool)
        (old : Bytes) (action : AppendAction) (sig : Signature) (source content : Bytes)
        → sync_all strong_checksum z host copts read ropts list.groups
            (commit strong_checksum z host copts read ropts store entry existed old action content)
            left
          ≡ some goal
        → pending list.groups rest ≡ entry ∷ pending list.groups left
        → (not ropts.dry_run && host.unwritable entry) ≡ false
        → read entry.path ≡ some source
        → IsDelivery strong_checksum z host copts entry.path old source content action sig
        → IsPhase (record {
          sender = answering rest;
          receiver = waiting list.groups entry existed old action sig left;
          file_list = none;
          signatures = record { path = entry.path; sig = sig; action = action } ∷ [];
          deltas = [];
          store = store;
        })
    answered :
        (rest left : List FileEntry) (store : Store) (entry : FileEntry) (existed : Bool)
        (old : Bytes) (action : AppendAction) (sig : Signature) (source content : Bytes)
        → sync_all strong_checksum z host copts read ropts list.groups
            (commit strong_checksum z host copts read ropts store entry existed old action content)
            left
          ≡ some goal
        → pending list.groups rest ≡ pending list.groups left
        → (not ropts.dry_run && host.unwritable entry) ≡ false
        → (d : IsDelivery strong_checksum z host copts entry.path old source content action sig)
        → IsPhase (record {
          sender = answering rest;
          receiver = waiting list.groups entry existed old action sig left;
          file_list = none;
          signatures = [];
          deltas =
              record { path = entry.path; delta = to_wire_delta_ops z d.ops entry.path copts } ∷ [];
          store = store;
        })
    done :
        (rest : List FileEntry)
        → pending list.groups rest ≡ []
        → IsPhase (record {
          sender = answering rest;
          receiver = finished;
          file_list = none;
          signatures = [];
          deltas = [];
          store = goal;
        })

  -- A step that keeps to the phases and leaves less to do.
  abbrev pub IsProgress : Session → Session → Type 0
  IsProgress s t = IsPhase t × (weight (length list.entries) t < weight (length list.entries) s)
