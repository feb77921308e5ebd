-- ===== src/Daemon/Session/Together.antt =====
-- Both sides of a session up to the transfer, whatever the transfer is.
