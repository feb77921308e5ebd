-- ===== src/Exchange/Guarded.antt =====
-- What a receiver writes, whatever the sender sends.
use grsync.Base.{◌≡◌, Bool, false, List, [], ◌∷◌, Bytes}
use grsync.Blocks.{Signature}
use grsync.Host.{DeltaMessage, Host}
use grsync.Compress.{CompressOptions, Zlib}
use grsync.Sender.{AppendAction}
use grsync.Receiver.{ReceiverOptions}
use grsync.Entry.{FileEntry}
use grsync.Exchange.{Store, walking, waiting, Session}

module _ (strong_checksum : Bytes → Bytes) (z : Zlib) (host : Host) (copts : CompressOptions)
    (read : Store) (ropts : ReceiverOptions) where
  -- The two occasions on which a path may be written: the delta that has come in bears the path,
  -- and is the one that the receiver waits for; or all entries are done, and hard links are made.
  -- Neither is in a dry run.
  pub data MayWrite (s : Session) (p : Bytes) : Type 0 where
    delivered :
        (groups : List (List Bytes)) (entry : FileEntry) (existed : Bool) (old : Bytes)
        (action : AppendAction) (sig : Signature) (rest : List FileEntry) (m : DeltaMessage)
        (deltas : List DeltaMessage)
        → s.receiver ≡ waiting groups entry existed old action sig rest
        → s.deltas ≡ m ∷ deltas
        → m.path ≡ p
        → entry.path ≡ p
        → ropts.dry_run ≡ false
        → MayWrite s p
    linking :
        (groups : List (List Bytes))
        → s.receiver ≡ walking groups []
        → ropts.dry_run ≡ false
        → MayWrite s p
