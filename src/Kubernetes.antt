-- ===== src/Kubernetes.antt =====
-- internal/utils/kubernetes
pub mod Status
pub mod Metadata
