-- ===== src/Receiver/Tests.antt =====
-- Runs of one file's transfer, and its theorems at concrete files. The strong checksum of the tests
-- is the block itself.
use grsync.Base.{
  ℕ, ◌+◌, ◌≡◌, refl, arith, true, false, none, some, [], ◌∷◌, Bytes, length, codes, ok,
}
use grsync.Base.Int.{pos, wrap_int}
use grsync.Delta.{copy_op, data_op, apply_delta}
use grsync.Delta.Apply.{FitsInt}
use grsync.Compress.{CompressOptions}
use grsync.Compress.Pack.{zeros, zeros-Inflates}
use grsync.Host.{Host, sendable}
use grsync.Wire.{concat_literals}
use grsync.Receiver.{ReceiverOptions, delta_byte_counts, choose_signature}
use grsync.Receiver.Counts.{delta_byte_counts-apply_delta}
use grsync.Receiver.Transfer.{transfer_file, IsSendable, synced, transfer_file-synced}

abbrev own : Bytes → Bytes
own block = block

abbrev appending : ReceiverOptions
appending = record {
  dry_run = false;
  itemize = false;
  verbose = false;
  progress = false;
  stats = false;
  partial = false;
  partial_dir = [];
  append = true;
  append_verify = false;
}

abbrev off : CompressOptions
off = record { enabled = false; level = 0; skip_suffixes = [] }

appended : synced appending true (codes "xyz") (codes "abcde") ≡ codes "xyzde"
unfolding synced
appended = refl

longer_kept : synced appending true (codes "xyz") (codes "ab") ≡ codes "xyz"
unfolding synced
longer_kept = refl

counts_run :
    delta_byte_counts (copy_op (pos 1) ∷ data_op (codes "x") ∷ []) (pos 3) 5 ≡ (pos 1, pos 2)
unfolding delta_byte_counts
counts_run = refl

-- Messages that are as long as their paths and the number of their operations.
abbrev host : Host
host = record {
  lists = record { encode_gob = λ l. []; decode_gob = λ b. none };
  signatures = record { encode_gob = λ m. m.path; decode_gob = λ b. none };
  deltas = record { encode_gob = λ m. length m.delta.ops ∷ m.path; decode_gob = λ b. none };
  unreadable = λ entry. false;
  unwritable = λ entry. false;
}

sends_tail :
    (let chosen = choose_signature own appending true (codes "xyz") (pos 5) in
      IsSendable own zeros host off (codes "f") (codes "abcde") chosen.0 chosen.1)
unfolding choose_signature sendable
sends_tail = record { signature_fits = refl; delta_fits = λ ops made. refl }

fits_old : FitsInt (codes "xyz") 700
fits_old = record { size_fits = omega arith; file_fits = omega arith }

transfer_file-synced_example :
    transfer_file own zeros host appending off (codes "f") true (codes "xyz") (codes "abcde")
    ≡ some (ok (synced appending true (codes "xyz") (codes "abcde")))
transfer_file-synced_example =
    transfer_file-synced zeros zeros-Inflates host own appending off (codes "f") true (codes "xyz")
      (codes "abcde") fits_old (omega arith) (omega arith) (λ i j b _ _ _ e. e) sends_tail

delta_byte_counts-apply_delta_example :
    (matched : ℕ) × (delta_byte_counts (copy_op (pos 1) ∷ data_op (codes "x") ∷ []) (pos 3) 5
      ≡ (pos (length (concat_literals (copy_op (pos 1) ∷ data_op (codes "x") ∷ []))), pos matched))
    × (length (concat_literals (copy_op (pos 1) ∷ data_op (codes "x") ∷ [])) + matched ≡ 3)
delta_byte_counts-apply_delta_example =
    delta_byte_counts-apply_delta (codes "abcde") (codes "dex")
      (copy_op (pos 1) ∷ data_op (codes "x") ∷ []) (record { block_size = pos 3; blocks = [] })
      (omega arith) (omega arith) (unfold apply_delta wrap_int in refl)
