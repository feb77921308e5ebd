-- ===== src/Exchange/Finished.antt =====
-- A sync, in any order of the two processes' steps, against the sequential one.
use grsync.Base.{ℕ, suc, ◌≡◌, some, [], Bytes}
use grsync.Compress.{CompressOptions, Zlib}
use grsync.Receiver.{ReceiverOptions}
use grsync.Exchange.{Store, answering, finished, Session, sender_next, receiver_next}
use grsync.Host.{Host, FileList}

module _ (strong_checksum : Bytes → Bytes) (z : Zlib) (host : Host) (copts : CompressOptions)
    (read : Store) (ropts : ReceiverOptions) (list : FileList) where
  -- One of the two processes takes a step.
  pub data Step (s t : Session) : Type 0 where
    sender_moves : sender_next strong_checksum z host copts read list s ≡ some t → Step s t
    receiver_moves : receiver_next strong_checksum z host copts read ropts s ≡ some t → Step s t

  -- A run of so many steps.
  pub data Run (s : Session) : ℕ → Session → Type 0 where
    here : Run s 0 s
    next : {n : ℕ} {t u : Session} → Run s n t → Step t u → Run s (suc n) u

  -- Both processes have ended without an error, with this store at the receiver.
  pub record IsFinished (s : Session) (goal : Store) : Type 0 where
    pub sender_done : s.sender ≡ answering []
    pub receiver_done : s.receiver ≡ finished
    pub result : s.store ≡ goal
