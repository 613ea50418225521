-- ===== src/Render/Samples.antt =====
-- Objects on which the theorems about the renderer and the controllers are run.
use devpods.Prelude.{pos, true, false, none, some, [], ◌∷◌, bytes}
use devpods.Api.Kube.{Container}
use devpods.Api.DevPods.{DevPod, PersistenceSpec, PodWorkloadSpec, unset}
use devpods.Api.Config.{GatewayConfigSpec}

abbrev pub app : Container
app = record {
  name = bytes "app";
  image = bytes "img";
  command = bytes "run" ∷ [];
  args = bytes "-v" ∷ [];
  env = [];
  volume_mounts = [];
  limits = [];
  requests = [];
}

abbrev pub side : Container
side = record app { name = bytes "side" }

abbrev pub home : PersistenceSpec
home = record {
  size = pos 10;
  storage_class_name = [];
  access_modes = [];
  mount_path = bytes "/home";
  target_container = bytes "side";
}

abbrev pub workload : PodWorkloadSpec
workload = record {
  metadata = record {
    labels = (bytes "devpod.io/owner", bytes "eve") ∷ (bytes "team", bytes "x") ∷ [];
    annotations = [];
  };
  spec = record {
    containers = app ∷ side ∷ [];
    init_containers = [];
    volumes = [];
    host_network = true;
    node_name = [];
  };
}

-- A DevPod of two containers on the host's network, with a home volume for the second, and with a
-- label that claims another owner.
abbrev pub host_pod : DevPod
host_pod = record {
  metadata = record {
    name = bytes "al-d2";
    namespace = bytes "devpods";
    uid = bytes "u1";
    labels = [];
    annotations = [];
    finalizers = [];
    deletion_timestamp = none;
    owner_references = [];
  };
  spec = record {
    owner = bytes "al";
    collaborators = [];
    running = true;
    idle_timeout_seconds = 0;
    persistence = some home;
    exit_on_user_command_exit = false;
    shell = bytes "zsh";
    pod = some workload;
    vm = none;
  };
  status = record {
    phase = unset;
    endpoint = [];
    workload_ref = none;
    persistent_volume_claim_ref = none;
    last_activity_time = none;
    hibernated_at = none;
    retry_count = 0;
    last_failure_at = none;
    message = [];
  };
}

abbrev pub config : GatewayConfigSpec
config = record {
  dev_pod_namespace = bytes "devpods";
  supervisor_image = bytes "sup";
  backend_port = 0;
  home_dir = none;
  isolate_network = true;
}
