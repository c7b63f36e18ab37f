-- ===== src/Approval.antt =====
-- The approval engine: src/approval.ts, with the facts of src/approval-reasons.ts and the tools of src/tool-defs.ts.
pub mod Reasons
pub mod Mounts
pub mod Facts
pub mod Tools
pub mod Policy
