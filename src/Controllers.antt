-- ===== src/Controllers.antt =====
-- internal/controllers: the reconcilers.
pub mod Cluster
pub mod Backoff
pub mod Users
pub mod DevPods
pub mod Snapshots
