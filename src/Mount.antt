-- ===== src/Mount.antt =====
-- The mounts of a container: src/mount-enums.ts, src/mount-order.ts, src/read-only-shell.ts and src/mount-input.ts.
pub mod Enums
pub mod Order
pub mod ReadOnly
pub mod Input
