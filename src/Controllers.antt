-- ===== src/Controllers.antt =====
-- controllers
pub mod Owned
pub mod Certificates
pub mod Deployments
pub mod ControlPlane
pub mod DataPlane
