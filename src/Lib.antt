-- ===== src/Lib.antt =====
-- A verification library for grsync, a file synchroniser in the manner of rsync, written in Go.
--
-- A sync has a sender, which holds the new files, and a receiver, which holds the old ones. For each
-- regular file the receiver cuts its old bytes into blocks and sends a signature, a weak rolling
-- checksum and a strong one (MD5) for each block. The sender slides a window over its new bytes and
-- answers with a delta, copies of old blocks and literal bytes, which the receiver applies. The
-- messages go as frames over a connection: the pipes of a remote shell, after a handshake, or a TCP
-- connection to a daemon.
--
-- Which file models what (paths from the repository's root):
--   Base, Base/*           shared names, lists by native numbers, byte strings, Go's results and ints
--   Conn                   a connection: bytes still to be read, bytes written, actions that may fail
--   Checksum, Checksum/*   internal/sync/checksum.go: newWeakChecksum, sum, roll
--   Blocks, Blocks/*       internal/sync/blocks.go and signature.go: splitBlocks, GenerateSignature
--   Delta, Delta/*         internal/sync/delta.go: GenerateDelta (advance is its outer loop, slide and
--                          literal_step its inner one), ApplyDelta
--   Transport/Frame        internal/transport/frame.go: WriteFrame, ReadFrame
--   Transport/Handshake    internal/transport/handshake.go: ServeHandshake, Handshake
--   Transport/RemotePath   internal/transport/remotepath.go: ParseRemotePath
--   Transport/Rsh          internal/transport/rsh.go: splitRSHCommand, BuildRSHCommand
--   Compress, Compress/*   internal/pipeline/compress.go: levels, suffixes, compressLiteral
--   Wire, Wire/*           internal/pipeline/messages.go: toWireDeltaOps, fromWireDeltaOps
--   Sender, Sender/*       internal/pipeline/sender.go: the answer to one file's signature, appendTailOps
--   Receiver, Receiver/*   internal/pipeline/receiver.go: the choice of a signature, the new content, the
--                          byte counts, whether the file is written; Receiver/Transfer joins both sides
--                          and the wire for one file
--   Exchange, Exchange/*   internal/pipeline/sender.go and receiver.go: Sender and Receiver over the file
--                          list, as two processes that step in any order (sender_next, receiver_next),
--                          and sync/hardlinks.go: ApplyHardLinks
--   Host                   internal/pipeline/messages.go: the messages; the limit of a frame, gob, and the
--                          calls of the receiver's operating system that may fail
--   Entry                  internal/sync/walk.go: FileEntry; internal/sync/attributes.go: AttrOptions
--   HardLinks, HardLinks/* internal/sync/hardlinks.go: DetectHardLinks
--   Attributes             internal/sync/attributes.go: ApplyAttributes and the functions it calls
--   Itemize, Itemize/*     internal/pipeline/itemize.go: the codes of changed entries and their lines
--   Partial, Partial/*     internal/pipeline/partial.go: the end of a file's writing
--   Stats, Stats/*         internal/pipeline/stats.go: the summary of a sync
--   Messages               internal/pipeline/messages.go: typed frames, what sends and receives them
--   Glob                   path.Match of Go's standard library, on bytes
--   Filter, Filter/*       internal/sync/filter.go: CompileRules, matches, Included, FilterEntries
--   Daemon/Lines           internal/daemon/protocol.go: readLine, writeLine
--   Daemon/Config          internal/daemon/config.go: ParseConfig
--   Daemon/Greeting        internal/daemon/protocol.go: ServeGreeting, DialGreeting, the list of modules
--   Daemon/Auth            internal/daemon/auth.go: ServeAuth, DialAuth
--   Daemon/Session         internal/daemon/session.go: ServeModule, DialModule
-- Modules named Tests hold runs on concrete inputs and the theorems at concrete inputs.
--
-- Conventions. Bytes are natural numbers, with the range stated where it matters. Unsigned 32-bit
-- arithmetic keeps its wrap. A Go int is a 64-bit signed number; block sizes and block indices are of
-- that type, and a product of the two wraps, as in ApplyDelta. Lengths of files in memory and the
-- positions of the loops do not wrap. A Result has a value, an error or a panic.
--
-- Fuel. The loops of splitBlocks and GenerateDelta take one round for each byte at most and are given
-- the length of the data; the theorems show that they end with a result. So is the parser of Glob,
-- whose tokens take a byte each. The loops of readModuleList and DialAuth read a line in each round, and
-- so are given the number of bytes that are still to be read.
--
-- Parameters. MD5 is a function from bytes to bytes; where a theorem needs that two byte strings do
-- not collide it says which ones. zlib is a pair of functions of which one undoes the other. The lines that
-- bufio.Scanner reads from a pattern file or a secrets file are a function of its path. MD4, the
-- daemon's random challenge, and the two sides of a transfer are arguments of the daemon's protocol;
-- the two floats of a summary are texts; gob is a pair of functions, and the operating system's calls
-- on a file's attributes and its inode are functions.
--
-- Not modelled: the file system and what only reads or writes it (the walk, the writing of
-- temporary files), sockets, subprocesses, output formatting and the command line. The
-- receiver's files are a function from paths to contents; a transfer that begins from a partial file is left
-- out. path.Match counts UTF-8 characters where Glob counts bytes, so the two agree on ASCII names.
pub mod Attributes
pub mod Base
pub mod Blocks
pub mod Checksum
pub mod Compress
pub mod Conn
pub mod Daemon
pub mod Delta
pub mod Entry
pub mod Exchange
pub mod Filter
pub mod Glob
pub mod HardLinks
pub mod Host
pub mod Itemize
pub mod Messages
pub mod Partial
pub mod Receiver
pub mod Sender
pub mod Stats
pub mod Transport
pub mod Wire
