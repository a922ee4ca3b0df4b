-- ===== src/Api.antt =====
-- The objects that the operator works on.
pub mod Meta
pub mod Env
pub mod Types
