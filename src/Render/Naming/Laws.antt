-- ===== src/Render/Naming/Laws.antt =====
-- The ports of DevPods, and the objects of different DevPods.
use devpods.Prelude.{ℕ, ◌≤◌, ◌<◌, ◌≡◌, ◌≢◌, true, false, [], arith, ◌==◌, if◌then◌else◌, Text}
use devpods.Api.DevPods.{DevPod}
use devpods.Api.Config.{GatewayConfigSpec}
use devpods.Render.Naming.{uses_host_network, backend_port}

-- The port is a port of TCP whatever the hash, if the configured one is. On the host's network it
-- lies in 65000 to 65499 for a DevPod with a UID, and otherwise it is the configured one, or 2222.
pub backend_port_bounds :
    (sum32 : Text → ℕ) (dp : DevPod) (cfg : GatewayConfigSpec)
    → cfg.backend_port < 65536
    → (1 ≤ backend_port sum32 dp cfg)
      × (backend_port sum32 dp cfg < 65536)
      × (uses_host_network dp.spec.pod ≡ true
          → dp.metadata.uid ≢ []
          → (65000 ≤ backend_port sum32 dp cfg) × (backend_port sum32 dp cfg < 65500))
      × (uses_host_network dp.spec.pod ≡ false
          → backend_port sum32 dp cfg ≡ (if cfg.backend_port == 0 then 2222 else cfg.backend_port))
unfolding backend_port
backend_port_bounds sum32 dp cfg h =
    (ground arith, ground arith, λ u n. ground arith, λ u. ground arith)
