-- ===== src/Ssh.antt =====
-- The scan for the host keys of an SSH server (internal/ssh/ssh_keyscan.go).
pub mod Keyscan
pub mod Dedup
pub mod Order
pub mod Found
