-- ===== src/Exchange/Tests.antt =====
-- A sync of a directory, two files and a hard link, and the theorems at it.
use grsync.Base.{true, false, none, some, [], ◌∷◌, Bytes, length, codes}
use grsync.Base.Int.{pos}
use grsync.Compress.{CompressOptions}
use grsync.Receiver.{ReceiverOptions}
use grsync.Entry.{FileEntry}
use grsync.Exchange.{Store, put, Session, answering, walking}
use grsync.Wire.{WireDeltaOp}
use grsync.Base.{List, ◌++◌}
use grsync.Host.{Host, FileList}
use grsync.Exchange.Phases.{start}
use grsync.Exchange.{waiting}
use grsync.Sender.{append_none}

abbrev own : Bytes → Bytes
own block = block

abbrev options : ReceiverOptions
options = record {
  dry_run = false;
  itemize = false;
  verbose = false;
  progress = false;
  stats = false;
  partial = false;
  partial_dir = [];
  append = false;
  append_verify = false;
}

abbrev off : CompressOptions
off = record { enabled = false; level = 0; skip_suffixes = [] }

abbrev op_bytes : List WireDeltaOp → Bytes
op_bytes [] = []
op_bytes (op ∷ ops) = op.kind ∷ op.bytes ++ op_bytes ops

-- Messages that are as long as their paths and the bytes that they carry; nothing is refused.
abbrev host : Host
host = record {
  lists = record { encode_gob = λ l. length l.entries ∷ []; decode_gob = λ b. none };
  signatures = record { encode_gob = λ m. m.path; decode_gob = λ b. none };
  deltas = record { encode_gob = λ m. m.path ++ op_bytes m.delta.ops; decode_gob = λ b. none };
  unreadable = λ entry. false;
  unwritable = λ entry. false;
}

abbrev nothing : Store
nothing p = none

abbrev source : Store
source = put (put nothing (codes "d/a") (codes "new")) (codes "d/b") (codes "more")

abbrev target : Store
target = put nothing (codes "d/a") (codes "old")

abbrev dir : FileEntry
dir = record {
  path = codes "d";
  size = pos 0;
  mod_time = pos 0;
  mode = 420;
  uid = 0;
  gid = 0;
  ownership_available = true;
  link_target = [];
  is_dir = true;
}

abbrev file_a : FileEntry
file_a = record {
  path = codes "d/a";
  size = pos 3;
  mod_time = pos 0;
  mode = 420;
  uid = 0;
  gid = 0;
  ownership_available = true;
  link_target = [];
  is_dir = false;
}

abbrev file_b : FileEntry
file_b = record {
  path = codes "d/b";
  size = pos 4;
  mod_time = pos 0;
  mode = 420;
  uid = 0;
  gid = 0;
  ownership_available = true;
  link_target = [];
  is_dir = false;
}

abbrev file_c : FileEntry
file_c = record {
  path = codes "d/c";
  size = pos 4;
  mod_time = pos 0;
  mode = 420;
  uid = 0;
  gid = 0;
  ownership_available = true;
  link_target = [];
  is_dir = false;
}

abbrev list : FileList
list = record {
  entries = dir ∷ file_a ∷ file_b ∷ file_c ∷ [];
  groups = (codes "d/b" ∷ codes "d/c" ∷ []) ∷ [];
}

abbrev result : Store
result =
    put (put (put target (codes "d/a") (codes "new")) (codes "d/b") (codes "more")) (codes "d/c")
      (codes "more")

abbrev sent_list : Session
sent_list = record (start target) { sender = answering list.entries; file_list = some list }

abbrev got_list : Session
got_list = record (start target) {
  sender = answering list.entries;
  receiver = walking list.groups list.entries;
}

-- A delta that bears another path than the one that is waited for.
abbrev foreign : Session
foreign = record (start target) {
  sender = answering [];
  receiver =
      waiting [] file_a true (codes "old") append_none
        (record { block_size = pos 700; blocks = [] }) [];
  deltas =
      record { path = codes "d/b"; delta = record { ops = []; compressed = false; literal = [] } }
      ∷ [];
}
