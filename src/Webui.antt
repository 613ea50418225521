-- ===== src/Webui.antt =====
-- internal/webui: the backend of the web interface.
pub mod Names
pub mod Kore
pub mod Template
pub mod Requests
pub mod DevPods
pub mod Sessions
pub mod Accounts
pub mod Topology
pub mod Quota
