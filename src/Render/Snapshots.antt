-- ===== src/Render/Snapshots.antt =====
-- internal/render/snapshot.go: the Job of a snapshot.
use devpods.Prelude.{
  Bool, true, false, Option, none, some, List, [], ◌∷◌, ◌++◌, if◌then◌else◌, Text, bytes,
}
use devpods.Api.Kube.{Container, EnvVar, VolumeMount, Volume, host_path, secret_items}
use devpods.Api.Objects.{Job}
use devpods.Api.Snapshots.{DevPodSnapshot}
use devpods.Render.Naming.{label_devpod, label_managed}
use devpods.Render.Objects.{metadata_of}

abbrev pub label_snapshot : Text
label_snapshot = bytes "devpod.io/snapshot"

abbrev pub snapshot_commit_push : Text
snapshot_commit_push =
    bytes
      "set -eo pipefail; docker commit \"$CONTAINER_ID\" \"$TARGET_IMAGE\" && docker push \"$TARGET_IMAGE\" 2>&1 | tee /tmp/push.log && sed -n 's/.*digest: \\(\\S\\+\\).*/\\1/p' /tmp/push.log > /dev/termination-log"

abbrev pub snapshot_commit_only : Text
snapshot_commit_only =
    bytes "docker commit \"$CONTAINER_ID\" \"$TARGET_IMAGE\" > /dev/termination-log"

unfoldable pub snapshot_job_name : DevPodSnapshot → Text
snapshot_job_name snap = bytes "snapshot-" ++ snap.metadata.name

socket_mount : VolumeMount
socket_mount = record {
  name = bytes "docker-sock";
  mount_path = bytes "/var/run/docker.sock";
  read_only = false;
}

-- The secret that is used: one only when the snapshot is pushed.
unfoldable pub used_secret : Bool → Option Text → Option Text
used_secret push secret = if push then secret else none

-- What the secret adds to the volumes, the mounts and the environment.
secret_volumes : Option Text → List Volume
secret_volumes none = []
secret_volumes (some name) =
    record {
      name = bytes "push-secret";
      source = secret_items name ((bytes ".dockerconfigjson", bytes "config.json") ∷ []);
    }
    ∷ []

secret_mounts : Option Text → List VolumeMount
secret_mounts none = []
secret_mounts (some name) =
    record { name = bytes "push-secret"; mount_path = bytes "/root/.docker"; read_only = true } ∷ []

secret_env : Option Text → List EnvVar
secret_env none = []
secret_env (some name) = record { name = bytes "DOCKER_CONFIG"; value = bytes "/root/.docker" } ∷ []

unfoldable pub snapshot_container : DevPodSnapshot → Text → Option Text → Text → Bool → Container
unfolding used_secret secret_mounts secret_env socket_mount
snapshot_container snap container_id push_secret snapshot_image push = record {
  name = bytes "snapshot";
  image = snapshot_image;
  command = bytes "sh" ∷ bytes "-c" ∷ [];
  args = (if push then snapshot_commit_push else snapshot_commit_only) ∷ [];
  env =
      record { name = bytes "CONTAINER_ID"; value = container_id }
      ∷ record { name = bytes "TARGET_IMAGE"; value = snap.spec.image }
      ∷ secret_env (used_secret push push_secret);
  volume_mounts = socket_mount ∷ secret_mounts (used_secret push push_secret);
  limits = [];
  requests = [];
}

unfoldable pub snapshot_job : DevPodSnapshot → Text → Text → Option Text → Text → Bool → Job
unfolding snapshot_container secret_volumes used_secret snapshot_job_name
snapshot_job snap container_id node_name push_secret snapshot_image push = record {
  metadata = metadata_of (snapshot_job_name snap) snap.metadata.namespace (
      (label_snapshot, snap.metadata.name)
      ∷ (label_devpod, snap.spec.dev_pod_name)
      ∷ (label_managed, bytes "devpod-controller")
      ∷ []);
  ttl_seconds_after_finished = 300;
  backoff_limit = 0;
  restart_policy = bytes "Never";
  termination_message_path = bytes "/dev/termination-log";
  termination_message_policy = bytes "FallbackToLogsOnError";
  template = record {
    containers = snapshot_container snap container_id push_secret snapshot_image push ∷ [];
    init_containers = [];
    volumes =
        record {
          name = bytes "docker-sock";
          source = host_path (bytes "/var/run/docker.sock") (bytes "Socket");
        }
        ∷ secret_volumes (used_secret push push_secret);
    host_network = false;
    node_name = node_name;
  };
}
