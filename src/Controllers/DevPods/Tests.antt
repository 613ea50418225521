-- ===== src/Controllers/DevPods/Tests.antt =====
-- A cluster with one Pod, whose world is that Pod, and instances of the theorems.
use devpods.Prelude.{
  pos, ◌*◌, ◌≡◌, refl, ◌↔◌, true, false, Option, none, some, [], ◌∷◌, passed, bytes, text_eq,
}
use devpods.Api.Kube.{ObjectMeta, GetResult, found, not_found, Pod, OwnerReference, pod_running}
use devpods.Api.Objects.{Claim, Secret}
use devpods.Api.DevPods.{DevPod}
use devpods.Render.Samples.{host_pod, workload, config}
use devpods.Render.Naming.{backend_port}
use devpods.Render.Objects.{metadata_of}
use devpods.Render.Pod.Tests.{sample}
use devpods.Controllers.Cluster.{
  Write, delete_pod, patch_status, update_devpod, WriteResult, accepted, Cluster, Pass, perform,
}
use devpods.Controllers.DevPods.{
  Tools, Reconciler, second, finalize_devpod, detach_pvc, detach_read, detach_claim,
  filter_references, cleanup_owner_net_pol_if_last, cleanup_listed, has_live_sibling,
}
use devpods.Controllers.DevPods.Apply.{update_status, create_pod, apply_then}
use devpods.Controllers.DevPods.Status.{desired_status, with_status, running_status, pod_status}
use devpods.Controllers.DevPods.Status.Laws.{is_ready, IsServing, desired_status-is_ready_iff}
use devpods.Controllers.DevPods.Deletion.{has_update, IsDetached, IsFreed, finalize_devpod-Releases}
use devpods.Controllers.DevPods.Passes.{update_status_settles, update_status_forgets, podless}
use devpods.Controllers.DevPods.Drift.{apply}

abbrev own_reference : OwnerReference
own_reference = record { kind = bytes "DevPod"; uid = bytes "u1" }

abbrev claim : Claim
claim = record {
  metadata = record (metadata_of (bytes "al-d2-home") (bytes "devpods") []) {
    owner_references = own_reference ∷ record { kind = bytes "Backup"; uid = bytes "b7" } ∷ [];
  };
  access_modes = bytes "ReadWriteOnce" ∷ [];
  storage = pos 10;
  storage_class_name = none;
}

abbrev host_key : Secret
host_key = record {
  metadata = metadata_of (bytes "al-d2-hostkey") (bytes "devpods") [];
  kind = bytes "Opaque";
  contents = (bytes "ssh_host_ed25519_key", bytes "k") ∷ [];
}

abbrev live : Pod
live = record {
  metadata = record (metadata_of (bytes "al-d2") (bytes "devpods") []) {
    annotations = (bytes "devpod.io/spec-hash", bytes "old") ∷ [];
  };
  spec = workload.spec;
  status = record {
    phase = pod_running;
    pod_ip = bytes "10.0.0.1";
    message = [];
    reason = [];
    container_statuses = [];
  };
}

abbrev effect : Write → Option Pod → Option Pod
effect (delete_pod ns name) w = none
effect _ w = w

abbrev got : Option Pod → GetResult Pod
got none = not_found
got (some p) = found p

abbrev cluster : Cluster (Option Pod)
cluster = record {
  now = λ w. 5 * second;
  get_devpod = λ ns name w. not_found;
  get_pod = λ ns name w. got w;
  get_claim = λ ns name w. found claim;
  get_secret = λ ns name w. found host_key;
  get_snapshot = λ ns name w. not_found;
  get_job = λ ns name w. not_found;
  list_pods = λ ns labels w. passed [];
  list_devpods = λ ns w. passed [];
  write = λ op w. (accepted, effect op w);
}

abbrev tools : Tools
tools = record {
  keys = record {
    generate = λ _. passed ([], []);
    marshal_private = λ k. passed k;
    marshal_public = λ k. passed k;
  };
  sum32 = λ uid. 1234;
  spec_hash = λ spec. bytes "new";
  finalizers = record { add = λ f fs. (fs, false); remove = λ f fs. [] };
  is_controlled_by = λ meta owner. true;
  set_controller = λ owner meta. passed meta;
  object_kinds = λ w. passed tt;
}

abbrev reconciler : Reconciler (Option Pod)
reconciler = record {
  cluster = cluster;
  tools = tools;
  config = config;
  gateway_namespace = [];
  gateway_internal_pub = bytes "pub";
}

abbrev start : Option Pod → Pass (Option Pod)
start w = record { world = w; requeue_after = 0; writes = [] }

-- A DevPod whose Pod has failed once.
abbrev unlucky : DevPod
unlucky = record host_pod {
  status = record host_pod.status { retry_count = 1; last_failure_at = some (4 * second) };
}

finalize_devpod-Releases_example :
    (u v : Pass (Option Pod)) × IsDetached reconciler host_pod (start none) u
    × IsFreed reconciler host_pod u v
    × ((res : WriteResult) × ((finalize_devpod reconciler host_pod (start none)).1.writes
          ≡ (
            update_devpod
                (record host_pod { metadata = record host_pod.metadata { finalizers = [] } }),
            res,
          )
            ∷ v.writes))
unfolding finalize_devpod detach_pvc detach_read detach_claim filter_references text_eq
    cleanup_owner_net_pol_if_last cleanup_listed has_live_sibling has_update perform
finalize_devpod-Releases_example =
    finalize_devpod-Releases reconciler host_pod (start none) refl refl

desired_status-is_ready_iff_example :
    (is_ready (pod_status host_pod 2222 live) ≡ true)
    ↔ IsServing host_pod 2222 (found live) (pod_status host_pod 2222 live)
unfolding desired_status running_status
desired_status-is_ready_iff_example =
    desired_status-is_ready_iff host_pod 2222 7 (found live) (pod_status host_pod 2222 live) refl

update_status_settles_example :
    update_status reconciler
      (with_status host_pod (pod_status host_pod 65234 live))
      (start (some live))
    ≡ (passed tt, start (some live))
unfolding desired_status running_status backend_port
update_status_settles_example =
    update_status_settles reconciler host_pod (start (some live)) (start (some live))
      (pod_status host_pod 65234 live) refl refl

update_status_forgets_example :
    ((res : WriteResult) × ((update_status reconciler unlucky (start none)).1.writes
        ≡ (patch_status (podless reconciler unlucky), res) ∷ []))
    × ((apply : Write) (u : Pass (Option Pod))
        → create_pod reconciler (podless reconciler unlucky) apply u
          ≡ apply_then reconciler (podless reconciler unlucky) apply u)
update_status_forgets_example =
    update_status_forgets reconciler unlucky (start none) (4 * second) refl refl refl

abbrev owned_sample : ObjectMeta
owned_sample = record (metadata_of sample.name sample.namespace sample.labels) {
  annotations = sample.annotations;
}
