-- ===== src/Process.antt =====
-- src/subprocess.ts: the processes that the provider starts in a guest.
pub mod Uids
pub mod Exec
pub mod Spawn
