-- ===== src/Api.antt =====
-- The API objects of api/v1alpha1, and the Kubernetes types that they hold. A pointer field is an
-- `Option`; a time is a count of nanoseconds; an int32 is its bit pattern, below 2 ^ 32. The
-- conditions of a status are left out: the modelled code copies them unread.
pub mod Kube
pub mod Objects
pub mod DevPods
pub mod Users
pub mod Config
pub mod Templates
pub mod Snapshots
