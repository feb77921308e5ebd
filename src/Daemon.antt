-- ===== src/Daemon.antt =====
-- internal/daemon: the text protocol in front of a transfer with a daemon, its authentication, and
-- its configuration.
pub mod Lines
pub mod Config
pub mod Greeting
pub mod Auth
pub mod Session
