-- ===== src/Tests.antt =====
-- Concrete objects, and the theorems at them.
pub mod Data
pub mod Server
pub mod Controllers
pub mod DataPlane
pub mod Kubernetes
pub mod Env
pub mod Validation
pub mod Admission
mod World
mod Deleting
mod Watch
mod Config
mod Gateway
mod Start
mod Stages
mod Secrets
mod Settled
