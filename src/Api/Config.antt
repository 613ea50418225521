-- ===== src/Api/Config.antt =====
-- api/v1alpha1/gatewayconfig_types.go: the parts of the specification that the renderer and the
-- DevPod controller read.
use devpods.Prelude.{ℕ, Bool, Option, Text}

pub record HomeDirSpec : Type 0 where
  pub host_path_prefix : Text
  pub mount_prefix : Text

pub record GatewayConfigSpec : Type 0 where
  pub dev_pod_namespace : Text
  pub supervisor_image : Text
  pub backend_port : ℕ
  pub home_dir : Option HomeDirSpec
  pub isolate_network : Bool
