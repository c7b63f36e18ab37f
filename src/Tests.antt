-- ===== src/Tests.antt =====
-- Concrete documents, paths and image lists, and what the program makes of them.
pub mod Documents
pub mod Templates
pub mod Images
pub mod Paths
pub mod Exports
pub mod Environments
pub mod Processes
pub mod Bindings
pub mod Terminals
pub mod Approvals
