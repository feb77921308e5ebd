-- ===== src/Transport.antt =====
-- internal/transport: the framed protocol that runs over a remote shell's pipes, its handshake, the
-- parsing of remote endpoints and the remote-shell command line.
pub mod Frame
pub mod Handshake
pub mod RemotePath
pub mod Rsh
