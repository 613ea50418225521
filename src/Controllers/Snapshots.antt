-- ===== src/Controllers/Snapshots.antt =====
-- internal/controllers/snapshot_controller.go: one reconciliation of a DevPodSnapshot. The order of the
-- guards in Reconcile is the order of the functions below, from `reconcile_snapshot` down.
pub mod Texts
pub mod Stages
pub mod Writes
pub mod Refinement
pub mod Histories
mod Tests
use devpods.Prelude.{
  ℕ, zero, suc, ◌+◌, ◌-◌, ◌*◌, ◌/◌, ◌%◌, ◌^◌, ◌≤◌, ◌<◌, ◌≡◌, refl, sym, ap, ◌∙◌, subst, ◌≢◌, ◌↔◌,
  ◌⊎◌, inl, inr, Bool, true, false, not, ◌&&◌, ◌||◌, Option, none, some, List, [], ◌∷◌, ◌++◌, map,
  append_assoc, append-nil, arith, ltb, leb, ◌==◌, if◌then◌else◌, ltb→lt, lt→ltb, leb→le, le→leb,
  ==_iff, tests, Bool-cases, Option-cases, and-true, is_none, some-injective, Outcome, refused,
  passed, ◌>>=◌, or_refuse, refuse_if, passed-injective, refused-ne-passed, Outcome-cases,
  >>=-passed, or_refuse-passed, refuse_if-passed, guarded, length, length-append, List-cases, all,
  All, All-append, Text, bytes, text_eq, text_eq_refl, text_eq_iff, Text-cases, text_neq-sym,
  is_empty, has_prefix, contains, itoa, digits, Dict, lookup, insert, remove, lookup-insert,
  lookup-remove,
}
use devpods.Api.Kube.{
  GetResult, found, not_found, get_failed, ObjectMeta, Pod, PodPhase, pod_running, pod_phase_text,
  Container, ContainerStatus, Terminated,
}
use devpods.Api.Objects.{
  Job, Secret, LiveJob, JobCondition, JobConditionType, job_complete, job_failed, job_other,
}
use devpods.Api.DevPods.{DevPod, LocalObjectRef, is_running, phase_text}
use devpods.Api.Snapshots.{
  DevPodSnapshot, DevPodSnapshotPhase, snapshot_running, snapshot_succeeded, snapshot_failed,
  PushAuthInline, JobRef, Condition,
}
use devpods.Render.Naming.{pod_name}
use devpods.Render.Objects.{metadata_of}
use devpods.Render.Snapshots.{snapshot_job}
use devpods.Controllers.Cluster.{
  Write, create_secret, create_job, update_snapshot, patch_snapshot, WriteResult, accepted, missing,
  exists_already, rejected, Cluster, unread, unowned, unkeyed, unwritten, no_containers_listed,
  Pass, Step, pure, fail, given, ◌>>>◌, within, perform, must,
}
use devpods.Controllers.DevPods.{Requeue, settled, at_once}
use devpods.Controllers.Snapshots.Texts.{
  extract_container_id, registry_from_image, DockerConfig, docker_config,
}

-- The libraries: owner references, conditions, the verb %q, base64, JSON and strings.TrimSpace.
pub record SnapshotTools : Type 0 where
  pub set_controller : ObjectMeta → ObjectMeta → Outcome Text ObjectMeta
  pub set_status_condition : Condition → List Condition → List Condition
  pub quote : Text → Text
  pub base64 : Text → Text
  pub marshal : DockerConfig → Outcome Text Text
  pub trim_space : Text → Text

pub record SnapshotReconciler (W : Type 0) : Type 0 where
  pub cluster : Cluster W
  pub tools : SnapshotTools
  pub snapshot_image : Text

unfoldable pub is_terminal : DevPodSnapshotPhase → Bool
is_terminal snapshot_succeeded = true
is_terminal snapshot_failed = true
is_terminal _ = false

abbrev pub is_pod_running : PodPhase → Bool
is_pod_running pod_running = true
is_pod_running _ = false

abbrev pub name_of_ref : Option LocalObjectRef → Option Text
name_of_ref none = none
name_of_ref (some ref) = some ref.name

abbrev pub first_container_name : List Container → Option Text
first_container_name [] = none
first_container_name (c ∷ _) = some c.name

-- The loop of extractDigest.
pub digest_of : SnapshotTools → List ContainerStatus → Text
digest_of tools [] = []
digest_of tools (cs ∷ rest) =
    let later = digest_of tools rest in
    if text_eq cs.name (bytes "snapshot")
    then (elim cs.terminated [ none ↦ later | some t ↦ tools.trim_space t.message ])
    else later

module _ {W : Type 0} (r : SnapshotReconciler W) (snap : DevPodSnapshot) where
  unfoldable pub failed_snapshot : Text → ℕ → DevPodSnapshot
  failed_snapshot message now = record snap {
    status = record snap.status {
      phase = snapshot_failed;
      message = message;
      conditions =
          r.tools.set_status_condition
            (record {
              kind = bytes "Complete";
              status = false;
              reason = bytes "Failed";
              message = message;
              last_transition_time = now;
            })
            snap.status.conditions;
    };
  }

  unfoldable pub succeeded_snapshot : Text → ℕ → DevPodSnapshot
  succeeded_snapshot digest now = record snap {
    status = record snap.status {
      phase = snapshot_succeeded;
      digest = digest;
      conditions =
          r.tools.set_status_condition
            (record {
              kind = bytes "Complete";
              status = true;
              reason = bytes "Succeeded";
              message = [];
              last_transition_time = now;
            })
            snap.status.conditions;
    };
  }

  unfoldable pub running_snapshot : Text → DevPodSnapshot
  running_snapshot job_name = record snap {
    status = record snap.status {
      phase = snapshot_running;
      job_ref = some (record { name = job_name });
    };
  }

  -- A patch of the status ends the pass.
  unfoldable pub patch_to : DevPodSnapshot → Step W Requeue
  patch_to x = must r.cluster (patch_snapshot x) >>> λ _. pure settled

  unfoldable pub set_failed : Text → Step W Requeue
  unfolding patch_to failed_snapshot
  set_failed message s = patch_to (failed_snapshot message (r.cluster.now s.world)) s

  unfoldable pub set_succeeded : Text → Step W Requeue
  unfolding patch_to succeeded_snapshot
  set_succeeded digest s = patch_to (succeeded_snapshot digest (r.cluster.now s.world)) s

  unfoldable pub set_running : Text → Step W Requeue
  unfolding patch_to running_snapshot
  set_running job_name = patch_to (running_snapshot job_name)

  abbrev pub auth_secret_name : Text
  auth_secret_name = snap.metadata.name ++ bytes "-auth"

  -- The snapshot without its credentials, which the Secret holds.
  unfoldable pub without_push_auth : DevPodSnapshot
  without_push_auth = record snap {
    spec = record snap.spec {
      push_auth = none;
      push_secret_ref = some (record { name = auth_secret_name });
    };
  }

  unfoldable pub swap_push_auth : Step W (Unit {0})
  unfolding without_push_auth
  swap_push_auth = must r.cluster (update_snapshot without_push_auth)

  -- A Secret that is there already is kept.
  unfoldable pub after_secret : WriteResult → Step W (Unit {0})
  unfolding swap_push_auth
  after_secret accepted = swap_push_auth
  after_secret exists_already = swap_push_auth
  after_secret missing = within (bytes "create auth secret") (fail (unwritten missing))
  after_secret (rejected err) =
      within (bytes "create auth secret") (fail (unwritten (rejected err)))

  unfoldable pub auth_secret : ObjectMeta → Text → Secret
  auth_secret meta docker_cfg = record {
    metadata = meta;
    kind = bytes "kubernetes.io/dockerconfigjson";
    contents = (bytes ".dockerconfigjson", docker_cfg) ∷ [];
  }

  abbrev pub build_config : PushAuthInline → Step W Text
  build_config auth = within (bytes "build docker config") (
      given unkeyed (
        r.tools.marshal (
          docker_config r.tools.base64 (registry_from_image snap.spec.image) auth.username
            auth.password)))

  abbrev pub own_secret : Step W ObjectMeta
  own_secret = within (bytes "set ownerref on auth secret") (
      given unowned (
        r.tools.set_controller snap.metadata
          (metadata_of auth_secret_name snap.metadata.namespace [])))

  abbrev pub send_secret : Text → ObjectMeta → Step W (Unit {0})
  send_secret docker_cfg owned =
      perform r.cluster (create_secret (auth_secret owned docker_cfg)) >>> after_secret

  unfoldable pub materialize_push_auth : PushAuthInline → Step W (Unit {0})
  unfolding after_secret auth_secret
  materialize_push_auth auth =
      build_config auth >>> λ docker_cfg. own_secret >>> send_secret docker_cfg

  -- extractDigest: no digest when the listing fails or is empty.
  unfoldable pub extract_digest : LiveJob → W → Text
  unfolding digest_of
  extract_digest job w =
      elim (r.cluster.list_pods job.metadata.namespace ((bytes "job-name", job.metadata.name) ∷ [])
        w) [
          | refused err ↦ []
          | passed pods ↦ elim pods [
            | [] ↦ []
            | (pod ∷ _) ↦ digest_of r.tools pod.status.container_statuses
          ]
        ]

  -- The loop over the conditions of the Job.
  unfoldable pub follow_conditions : LiveJob → List JobCondition → Step W Requeue
  unfolding set_succeeded set_failed
  follow_conditions job [] = pure settled
  follow_conditions job (c ∷ cs) =
      let rest = follow_conditions job cs in
      if c.is_true
      then (elim c.kind [
        | job_complete ↦ λ s. set_succeeded (extract_digest job s.world) s
        | job_failed ↦ set_failed (bytes "snapshot Job failed: " ++ c.message)
        | job_other ↦ rest
      ])
      else rest

  unfoldable pub follow_job : Text → GetResult LiveJob → Step W Requeue
  unfolding follow_conditions set_failed
  follow_job name (found job) = follow_conditions job job.conditions
  follow_job name not_found =
      set_failed (bytes "snapshot Job " ++ r.tools.quote name ++ bytes " disappeared")
  follow_job name (get_failed err) = within (bytes "get snapshot job") (fail (unread err))

  unfoldable pub reconcile_existing_job : JobRef → Step W Requeue
  unfolding follow_job
  reconcile_existing_job ref s =
      follow_job ref.name (r.cluster.get_job snap.metadata.namespace ref.name s.world) s

  unfoldable pub after_job : Text → WriteResult → Step W Requeue
  unfolding set_running
  after_job name accepted = set_running name
  after_job name exists_already = pure at_once
  after_job name missing = within (bytes "create snapshot job") (fail (unwritten missing))
  after_job name (rejected err) =
      within (bytes "create snapshot job") (fail (unwritten (rejected err)))

  unfoldable pub job_of : Text → Text → Job
  job_of container_id node_name =
      snapshot_job snap container_id node_name (name_of_ref snap.spec.push_secret_ref)
        r.snapshot_image snap.spec.push

  abbrev pub own_job : Job → Step W ObjectMeta
  own_job job =
      within (bytes "set ownerref on job")
        (given unowned (r.tools.set_controller snap.metadata job.metadata))

  abbrev pub send_job : Job → ObjectMeta → Step W Requeue
  send_job job owned =
      perform r.cluster (create_job (record job { metadata = owned }))
      >>> after_job job.metadata.name

  unfoldable pub launch : Text → Text → Step W Requeue
  unfolding job_of after_job
  launch container_id node_name =
      let job = job_of container_id node_name in own_job job >>> send_job job

  -- The checks behind the Pod: its container and its node.
  unfoldable pub start_container : Pod → Outcome Text Text → Step W Requeue
  unfolding launch set_failed
  start_container pod (refused err) = set_failed (bytes "container ID: " ++ err)
  start_container pod (passed id) =
      if is_empty pod.spec.node_name
      then set_failed (bytes "Pod " ++ r.tools.quote pod.metadata.name ++ bytes " has no nodeName")
      else launch id pod.spec.node_name

  -- Containers[0] of an empty list ends the pass.
  unfoldable pub start_first : Pod → Option Text → Step W Requeue
  unfolding start_container
  start_first pod none = fail no_containers_listed
  start_first pod (some name) =
      start_container pod (extract_container_id r.tools.quote pod.status.container_statuses name)

  unfoldable pub start_pod : Text → GetResult Pod → Step W Requeue
  unfolding start_first set_failed
  start_pod name not_found = set_failed (bytes "Pod " ++ r.tools.quote name ++ bytes " not found")
  start_pod name (get_failed err) = within (bytes "get pod") (fail (unread err))
  start_pod name (found pod) =
      if not (is_pod_running pod.status.phase)
      then set_failed (
          bytes "Pod "
          ++ r.tools.quote pod.metadata.name
          ++ bytes " is not running (phase: "
          ++ pod_phase_text pod.status.phase
          ++ bytes ")")
      else start_first pod (first_container_name pod.spec.containers)

  unfoldable pub start_devpod : GetResult DevPod → Step W Requeue
  unfolding start_pod set_failed
  start_devpod not_found =
      set_failed (bytes "DevPod " ++ r.tools.quote snap.spec.dev_pod_name ++ bytes " not found")
  start_devpod (get_failed err) = within (bytes "get devpod") (fail (unread err))
  start_devpod (found dp) =
      if not (is_running dp.status.phase)
      then set_failed (
          bytes "DevPod "
          ++ r.tools.quote snap.spec.dev_pod_name
          ++ bytes " is not running (phase: "
          ++ phase_text dp.status.phase
          ++ bytes ")")
      else λ s.
          start_pod (pod_name dp) (r.cluster.get_pod snap.metadata.namespace (pod_name dp) s.world)
            s

  unfoldable pub start_job : Step W Requeue
  unfolding start_devpod
  start_job s =
      start_devpod (r.cluster.get_devpod snap.metadata.namespace snap.spec.dev_pod_name s.world) s

  -- The guards on the credentials and on the Job.
  unfoldable pub dispatch : Option PushAuthInline → Option JobRef → Step W Requeue
  unfolding materialize_push_auth reconcile_existing_job start_job
  dispatch (some auth) job_ref =
      within (bytes "materialize push auth") (materialize_push_auth auth) >>> λ _. pure at_once
  dispatch none (some ref) = reconcile_existing_job ref
  dispatch none none = start_job

  unfoldable pub reconcile_snapshot_found : Step W Requeue
  unfolding dispatch is_terminal
  reconcile_snapshot_found =
      if is_terminal snap.status.phase
      then pure settled
      else dispatch snap.spec.push_auth snap.status.job_ref

module _ {W : Type 0} (r : SnapshotReconciler W) where
  unfoldable pub reconcile_snapshot_read : GetResult DevPodSnapshot → Step W Requeue
  unfolding reconcile_snapshot_found
  reconcile_snapshot_read not_found = pure settled
  reconcile_snapshot_read (get_failed err) = within (bytes "get snapshot") (fail (unread err))
  reconcile_snapshot_read (found snap) = reconcile_snapshot_found r snap

  unfoldable pub reconcile_snapshot : Text → Text → Step W Requeue
  unfolding reconcile_snapshot_read
  reconcile_snapshot namespace name s =
      reconcile_snapshot_read (r.cluster.get_snapshot namespace name s.world) s
