-- ===== src/Render/Naming/Tests.antt =====
-- A port on the host's network, and an instance of the theorem.
use devpods.Prelude.{◌≡◌, refl}
use devpods.Render.Naming.{backend_port}
use devpods.Render.Samples.{host_pod, config}

on_host : backend_port (λ uid. 1234) host_pod config ≡ 65234
unfolding backend_port
on_host = refl
