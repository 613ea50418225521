-- ===== src/Supervisor.antt =====
-- cmd/supervisor: the first process of a DevPod's container.
pub mod Reaper
pub mod Splitting
pub mod Passwd
pub mod Shell
mod Tests
pub mod SetEnv
pub mod Startup
