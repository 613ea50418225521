-- ===== src/Controllers/Snapshots/Tests.antt =====
-- A snapshot with credentials, and instances of the theorems.
use devpods.Prelude.{ℕ, ◌+◌, ◌≤◌, refl, true, none, some, [], ◌∷◌, ◌++◌, passed, bytes}
use devpods.Api.Kube.{not_found}
use devpods.Api.Snapshots.{DevPodSnapshot, snapshot_unset}
use devpods.Render.Objects.{metadata_of}
use devpods.Controllers.Cluster.{Cluster, Pass, accepted, perform}
use devpods.Controllers.Snapshots.{
  SnapshotReconciler, SnapshotTools, reconcile_snapshot_found, without_push_auth,
}
use devpods.Controllers.Snapshots.Stages.{stage, rank}
use devpods.Controllers.Snapshots.Refinement.{reconcile_snapshot_found-Writes}
use devpods.Controllers.Snapshots.Writes.{Writes, snapshot_writes}
use devpods.Controllers.Snapshots.Histories.{History, at_rest, after_pass, History-bounded}

abbrev cluster : Cluster ℕ
cluster = record {
  now = λ w. w;
  get_devpod = λ ns name w. not_found;
  get_pod = λ ns name w. not_found;
  get_claim = λ ns name w. not_found;
  get_secret = λ ns name w. not_found;
  get_snapshot = λ ns name w. not_found;
  get_job = λ ns name w. not_found;
  list_pods = λ ns labels w. passed [];
  list_devpods = λ ns w. passed [];
  write = λ op w. (accepted, w + 1);
}

abbrev tools : SnapshotTools
tools = record {
  set_controller = λ owner meta. passed meta;
  set_status_condition = λ c cs. c ∷ cs;
  quote = λ t. b'"' ∷ t ++ b'"' ∷ [];
  base64 = λ t. t;
  marshal = λ cfg. passed cfg.auth;
  trim_space = λ t. t;
}

abbrev reconciler : SnapshotReconciler ℕ
reconciler = record { cluster = cluster; tools = tools; snapshot_image = bytes "docker" }

abbrev request : DevPodSnapshot
request = record {
  metadata = metadata_of (bytes "s1") (bytes "devpods") [];
  spec = record {
    dev_pod_name = bytes "al-d2";
    image = bytes "reg.io/al:1";
    push = true;
    push_auth = some (record { username = bytes "al"; password = bytes "pw" });
    push_secret_ref = none;
  };
  status = record {
    phase = snapshot_unset;
    digest = [];
    message = [];
    job_ref = none;
    conditions = [];
  };
}

abbrev start : Pass ℕ
start = record { world = 0; requeue_after = 0; writes = [] }

reconcile_snapshot_found-Writes_example :
    Writes request start (reconcile_snapshot_found reconciler request start).1
reconcile_snapshot_found-Writes_example = reconcile_snapshot_found-Writes reconciler request start

-- The first pass stores the credentials.
one_write : History reconciler request 1
unfolding reconcile_snapshot_found snapshot_writes perform
one_write =
    after_pass request (without_push_auth reconciler request) start 0 refl
      (at_rest (without_push_auth reconciler request))

History-bounded_example : 1 ≤ rank (stage request)
History-bounded_example = History-bounded reconciler request 1 one_write
