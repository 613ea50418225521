-- ===== src/Render.antt =====
-- The renderer of Kubernetes objects: internal/render.
pub mod Naming
pub mod Pod
pub mod Objects
pub mod Network
pub mod Snapshots
pub mod Samples
