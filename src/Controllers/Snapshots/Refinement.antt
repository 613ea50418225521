-- ===== src/Controllers/Snapshots/Refinement.antt =====
-- Every write of a snapshot by the reconciler is a move of the machine of stages.
use devpods.Prelude.{
  ◌≡◌, refl, sym, ap, ◌∙◌, subst, inl, inr, false, Option, none, some, Bool-cases, Outcome, refused,
  passed, Text, bytes, is_empty,
}
use devpods.Api.Kube.{GetResult, found, not_found, get_failed, Pod, ObjectMeta}
use devpods.Api.DevPods.{DevPod, is_running}
use devpods.Api.Snapshots.{
  DevPodSnapshot, DevPodSnapshotPhase, snapshot_unset, snapshot_pending, snapshot_running,
  snapshot_succeeded, snapshot_failed, PushAuthInline, JobRef,
}
use devpods.Controllers.Cluster.{
  update_snapshot, create_secret, create_job, WriteResult, accepted, missing, exists_already,
  rejected, Pass, ◌>>>◌, perform, within, unowned, unkeyed,
}
use devpods.Controllers.Cluster.Laws.{must-Ends, chain-pure, within-Ends}
use devpods.Controllers.DevPods.{at_once}
use devpods.Controllers.Snapshots.{
  SnapshotReconciler, is_terminal, without_push_auth, swap_push_auth, after_secret,
  materialize_push_auth, reconcile_existing_job, after_job, job_of, own_job, send_job, launch,
  build_config, own_secret, send_secret, start_container, start_first, start_pod, start_devpod,
  start_job, dispatch, reconcile_snapshot_found, is_pod_running, first_container_name, auth_secret,
}
use devpods.Controllers.Snapshots.Stages.{
  credentials, ready, copying, broken, Advances, stored, stored_late, not_started, stage_by, stage,
}
use devpods.Controllers.Snapshots.Writes.{
  snapshot_writes, Writes, quiet_then, given_quiet, set_failed-Writes, set_running-Writes,
  follow_job-Writes,
}
    -- The start: every check that fails breaks a snapshot that is ready.

module _ {W : Type 0} (r : SnapshotReconciler W) (snap : DevPodSnapshot) where
  module _ (at_ready : stage snap ≡ ready) (bare : snap.spec.push_auth ≡ none) where
    breaks : Advances (stage snap) broken
    breaks = subst (λ a. Advances a broken) (sym at_ready) not_started

    after_job-Writes :
        (name : Text) (res : WriteResult) (s : Pass W)
        → Writes snap s (after_job r snap name res s).1
    unfolding after_job
    after_job-Writes name accepted s = set_running-Writes r snap name s at_ready bare
    after_job-Writes name exists_already s = inl refl
    after_job-Writes name missing s = inl refl
    after_job-Writes name (rejected err) s = inl refl

    launch-Writes : (id node : Text) (s : Pass W) → Writes snap s (launch r snap id node s).1
    unfolding launch perform snapshot_writes
    launch-Writes id node s =
        let job = job_of r snap id node in
        quiet_then r snap (own_job r snap job) (send_job r snap job) s
          (given_quiet r snap (bytes "set ownerref on job") unowned
            (r.tools.set_controller snap.metadata job.metadata) s)
          (λ owned.
            let t = (own_job r snap job s).1 in
            let create = perform r.cluster (create_job (record job { metadata = owned })) in
            quiet_then r snap create (after_job r snap job.metadata.name) t refl
              (λ res. after_job-Writes job.metadata.name res (create t).1))

    start_container-Writes :
        (pod : Pod) (id : Outcome Text Text) (s : Pass W)
        → Writes snap s (start_container r snap pod id s).1
    unfolding start_container
    start_container-Writes pod (refused err) s = set_failed-Writes r snap _ s breaks
    start_container-Writes pod (passed id) s = elim (Bool-cases (is_empty pod.spec.node_name)) [
      | inl e ↦ rw e (set_failed-Writes r snap _ s breaks)
      | inr e ↦ rw e (launch-Writes id pod.spec.node_name s)
    ]

    start_first-Writes :
        (pod : Pod) (name : Option Text) (s : Pass W)
        → Writes snap s (start_first r snap pod name s).1
    unfolding start_first
    start_first-Writes pod none s = inl refl
    start_first-Writes pod (some name) s = start_container-Writes pod _ s

    start_pod-Writes :
        (name : Text) (got : GetResult Pod) (s : Pass W)
        → Writes snap s (start_pod r snap name got s).1
    unfolding start_pod
    start_pod-Writes name not_found s = set_failed-Writes r snap _ s breaks
    start_pod-Writes name (get_failed err) s = inl refl
    start_pod-Writes name (found pod) s = elim (Bool-cases (is_pod_running pod.status.phase)) [
      | inl e ↦ rw e (start_first-Writes pod (first_container_name pod.spec.containers) s)
      | inr e ↦ rw e (set_failed-Writes r snap _ s breaks)
    ]

    start_devpod-Writes :
        (got : GetResult DevPod) (s : Pass W) → Writes snap s (start_devpod r snap got s).1
    unfolding start_devpod
    start_devpod-Writes not_found s = set_failed-Writes r snap _ s breaks
    start_devpod-Writes (get_failed err) s = inl refl
    start_devpod-Writes (found dp) s = elim (Bool-cases (is_running dp.status.phase)) [
      | inl e ↦ rw e (start_pod-Writes _ _ s)
      | inr e ↦ rw e (set_failed-Writes r snap _ s breaks)
    ]

  -- The credentials.
  module _ (at_auth : stage snap ≡ credentials) where
    -- Without its credentials the snapshot is where its phase and its Job say.
    after_auth :
        (phase : DevPodSnapshotPhase) (auth : Option PushAuthInline) (job : Option JobRef)
        → stage_by phase auth job ≡ credentials
        → Advances credentials (stage_by phase none job)
    after_auth snapshot_unset auth none h = stored
    after_auth snapshot_unset auth (some j) h = stored_late
    after_auth snapshot_pending auth none h = stored
    after_auth snapshot_pending auth (some j) h = stored_late
    after_auth snapshot_running auth none h = stored
    after_auth snapshot_running auth (some j) h = stored_late
    after_auth snapshot_succeeded auth job h = cc
    after_auth snapshot_failed auth job h = cc

    swap_push_auth-Writes : (s : Pass W) → Writes snap s (swap_push_auth r snap s).1
    unfolding swap_push_auth without_push_auth snapshot_writes
    swap_push_auth-Writes s =
        let (res, log, _) = must-Ends r.cluster (update_snapshot (without_push_auth r snap)) s in
        let move =
          subst (λ g. Advances g (stage (without_push_auth r snap))) (sym at_auth)
            (after_auth snap.status.phase snap.spec.push_auth snap.status.job_ref at_auth) in
        inr (without_push_auth r snap, (move, refl, refl, refl, refl), ap snapshot_writes log)

    after_secret-Writes :
        (res : WriteResult) (s : Pass W) → Writes snap s (after_secret r snap res s).1
    unfolding after_secret
    after_secret-Writes accepted s = swap_push_auth-Writes s
    after_secret-Writes exists_already s = swap_push_auth-Writes s
    after_secret-Writes missing s = inl refl
    after_secret-Writes (rejected err) s = inl refl

    send_secret-Writes :
        (docker_cfg : Text) (owned : ObjectMeta) (s : Pass W)
        → Writes snap s (send_secret r snap docker_cfg owned s).1
    unfolding perform snapshot_writes
    send_secret-Writes docker_cfg owned s =
        let create = perform r.cluster (create_secret (auth_secret r snap owned docker_cfg)) in
        quiet_then r snap create (after_secret r snap) s refl
          (λ res. after_secret-Writes res (create s).1)

    materialize-Writes :
        (auth : PushAuthInline) (s : Pass W) → Writes snap s (materialize_push_auth r snap auth s).1
    unfolding materialize_push_auth
    materialize-Writes auth s =
        quiet_then r snap (build_config r snap auth)
          (λ docker_cfg. own_secret r snap >>> send_secret r snap docker_cfg) s
          (given_quiet r snap (bytes "build docker config") unkeyed _ s)
          (λ docker_cfg.
            let t = (build_config r snap auth s).1 in
            quiet_then r snap (own_secret r snap) (send_secret r snap docker_cfg) t
              (given_quiet r snap (bytes "set ownerref on auth secret") unowned _ t)
              (λ owned. send_secret-Writes docker_cfg owned (own_secret r snap t).1))

  live-credentials :
      (p : DevPodSnapshotPhase) (a : PushAuthInline) (job : Option JobRef)
      → is_terminal p ≡ false
      → stage_by p (some a) job ≡ credentials
  unfolding is_terminal
  live-credentials snapshot_unset a job h = refl
  live-credentials snapshot_pending a job h = refl
  live-credentials snapshot_running a job h = refl
  live-credentials snapshot_succeeded a job h = cc
  live-credentials snapshot_failed a job h = cc

  live-copying :
      (p : DevPodSnapshotPhase) (job : JobRef)
      → is_terminal p ≡ false
      → stage_by p none (some job) ≡ copying
  unfolding is_terminal
  live-copying snapshot_unset job h = refl
  live-copying snapshot_pending job h = refl
  live-copying snapshot_running job h = refl
  live-copying snapshot_succeeded job h = cc
  live-copying snapshot_failed job h = cc

  live-ready : (p : DevPodSnapshotPhase) → is_terminal p ≡ false → stage_by p none none ≡ ready
  unfolding is_terminal
  live-ready snapshot_unset h = refl
  live-ready snapshot_pending h = refl
  live-ready snapshot_running h = refl
  live-ready snapshot_succeeded h = cc
  live-ready snapshot_failed h = cc

  stage_eq :
      (auth : Option PushAuthInline) (job : Option JobRef)
      → snap.spec.push_auth ≡ auth
      → snap.status.job_ref ≡ job
      → stage snap ≡ stage_by snap.status.phase auth job
  stage_eq auth job a j =
      ap (λ x. stage_by snap.status.phase x snap.status.job_ref) a
      ∙ ap (stage_by snap.status.phase auth) j

  dispatch-Writes :
      (auth : Option PushAuthInline) (job : Option JobRef) (s : Pass W)
      → is_terminal snap.status.phase ≡ false
      → snap.spec.push_auth ≡ auth
      → snap.status.job_ref ≡ job
      → Writes snap s (dispatch r snap auth job s).1
  unfolding dispatch reconcile_existing_job start_job
  dispatch-Writes (some auth) job s on a j =
      let at_auth = stage_eq (some auth) job a j ∙ live-credentials snap.status.phase auth job on in
      let step = within (bytes "materialize push auth") (materialize_push_auth r snap auth) in
      let same =
        chain-pure (step s) at_once
        ∙ (within-Ends (bytes "materialize push auth") (materialize_push_auth r snap auth) s).0 in
      subst (Writes snap s) (sym same) (materialize-Writes at_auth auth s)
  dispatch-Writes none (some job) s on a j =
      follow_job-Writes r snap job.name (r.cluster.get_job snap.metadata.namespace job.name s.world)
        s (stage_eq none (some job) a j ∙ live-copying snap.status.phase job on)
  dispatch-Writes none none s on a j =
      start_devpod-Writes (stage_eq none none a j ∙ live-ready snap.status.phase on) a _ s

  -- The reconciler refines the machine of stages: whatever the reads give and however the writes end,
  -- a pass tries to write the snapshot at most once, and that write is a move of the machine which
  -- keeps the metadata, the DevPod, the image and the choice to push.
  pub reconcile_snapshot_found-Writes :
      (s : Pass W) → Writes snap s (reconcile_snapshot_found r snap s).1
  unfolding reconcile_snapshot_found
  reconcile_snapshot_found-Writes s = elim (Bool-cases (is_terminal snap.status.phase)) [
    | inl over ↦ rw over (inl refl)
    | inr on ↦ rw on (dispatch-Writes snap.spec.push_auth snap.status.job_ref s on refl refl)
  ]
