-- ===== src/Env.antt =====
-- The environment of a container: its defaults and the rows of its editors.
pub mod Defaults
pub mod Rows
