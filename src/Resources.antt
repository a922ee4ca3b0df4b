-- ===== src/Resources.antt =====
-- The objects that the operator generates.
pub mod Objects
pub mod Roles
pub mod Generators
