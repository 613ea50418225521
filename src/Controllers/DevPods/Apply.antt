-- ===== src/Controllers/DevPods/Apply.antt =====
-- internal/controllers/devpod_controller.go: applyAll and its steps, and updateStatus.
use devpods.Prelude.{
  ℕ, ◌+◌, ◌-◌, ◌*◌, not, Option, none, some, [], ltb, if◌then◌else◌, Outcome, refused, passed, Text,
  bytes, text_eq, is_empty, lookup,
}
use devpods.Api.Kube.{GetResult, found, not_found, get_failed, Pod}
use devpods.Api.Objects.{Secret}
use devpods.Api.DevPods.{DevPod, DevPodStatus}
use devpods.Render.Naming.{pod_name, host_key_secret_name, backend_port}
use devpods.Render.Objects.{render_service, render_home_pvc, render_host_key_secret}
use devpods.Render.Network.{default_deny_network_policy, owner_allow_network_policy}
use devpods.Render.Pod.{RenderedPod, render_pod}
use devpods.Controllers.Backoff.{failure_backoff}
use devpods.Controllers.Cluster.{
  Write, patch_status, delete_pod, apply_claim, create_secret, apply_pod, apply_service,
  apply_policy, WriteResult, accepted, missing, exists_already, rejected, unread, unkeyed, unowned,
  unwritten, unrendered, not_controlled, key_missing, Step, pure, fail, given, ◌>>>◌, within,
  perform, must, must_or_missing,
}
use devpods.Controllers.DevPods.Status.{desired_status, status_equal, with_status}
use devpods.Controllers.DevPods.{
  Reconciler, spec_hash_annotation, second, is_failed, pod_metadata, with_hash, with_failure,
  pod_failure_message, set_requeue_after, server_side_apply, apply_owned,
}

abbrev pub or_nothing : Option Text → Text
or_nothing none = []
or_nothing (some t) = t

-- A failure of a creation that finds the object there already is none.
abbrev pub accept_existing : {W : Type 0} → WriteResult → Step W (Unit {0})
accept_existing accepted = pure tt
accept_existing missing = fail (unwritten missing)
accept_existing exists_already = pure tt
accept_existing (rejected err) = fail (unwritten (rejected err))

-- backoff - elapsed for a failure at `t`, if that is positive. The clock may stand before `t`.
unfoldable pub wait_left : ℕ → ℕ → ℕ → Option ℕ
wait_left retry_count t now =
    let due = t + failure_backoff retry_count * second in
    if ltb now due then some (due - now) else none

unfoldable pub wait_after : Option ℕ → ℕ → ℕ → Option ℕ
unfolding wait_left
wait_after none retry_count now = none
wait_after (some t) retry_count now = wait_left retry_count t now

unfoldable pub gateway_namespace_of : Text → Text
gateway_namespace_of ns = if is_empty ns then bytes "devpod-system" else ns

module _ {W : Type 0} (r : Reconciler W) where
  -- The two checks of a host key that is there.
  unfoldable pub check_host_key : DevPod → Secret → Step W (Unit {0})
  check_host_key dp existing =
      if not (r.tools.is_controlled_by existing.metadata dp.metadata)
      then fail not_controlled
      else if is_empty (or_nothing (lookup (bytes "ssh_host_ed25519_key") existing.contents))
      then fail key_missing
      else pure tt

  unfoldable pub create_host_key : DevPod → Step W (Unit {0})
  create_host_key dp =
      given unkeyed (render_host_key_secret r.tools.keys dp r.config r.gateway_internal_pub)
      >>> λ sec.
          within (bytes "set ownerref on secret")
            (given unowned (r.tools.set_controller dp.metadata sec.metadata))
          >>> λ owned. within (bytes "create host key secret") (
              perform r.cluster (create_secret (record sec { metadata = owned }))
              >>> accept_existing)

  -- ensureHostKeySecret by what the read gives.
  unfoldable pub ensure_read : DevPod → GetResult Secret → Step W (Unit {0})
  unfolding check_host_key create_host_key
  ensure_read dp (found existing) = check_host_key dp existing
  ensure_read dp not_found = create_host_key dp
  ensure_read dp (get_failed err) = within (bytes "get host key secret") (fail (unread err))

  unfoldable pub ensure_host_key_secret : DevPod → Step W (Unit {0})
  unfolding ensure_read
  ensure_host_key_secret dp s =
      ensure_read dp
        (r.cluster.get_secret r.config.dev_pod_namespace (host_key_secret_name dp) s.world) s

  unfoldable pub apply_pvc : DevPod → Step W (Unit {0})
  apply_pvc dp = elim (render_home_pvc dp r.config) [
    | none ↦ pure tt
    | some claim ↦
        apply_owned r dp claim.metadata (λ meta. apply_claim (record claim { metadata = meta }))
  ]

  unfoldable pub handle_failed_pod : DevPod → Pod → Step W DevPod
  handle_failed_pod dp pod s =
      let dp' = with_failure dp (pod_failure_message pod) (r.cluster.now s.world) in
      (within (bytes "patch failure status") (must r.cluster (patch_status dp')) >>> λ _.
      within (bytes "delete failed pod")
        (must_or_missing r.cluster (delete_pod pod.metadata.namespace pod.metadata.name))
      >>> λ _.
          set_requeue_after r (failure_backoff dp'.status.retry_count * second) >>> λ _. pure dp')
        s

  unfoldable pub delete_drifted : DevPod → Pod → Step W DevPod
  delete_drifted dp live =
      within (bytes "delete pod for drift recreate")
        (must_or_missing r.cluster (delete_pod live.metadata.namespace live.metadata.name))
      >>> λ _. pure dp

  unfoldable pub apply_then : DevPod → Write → Step W DevPod
  apply_then dp apply = server_side_apply r apply >>> λ _. pure dp

  -- What applyPodWithDriftRecreate does with the Pod that is there.
  unfoldable pub meet_live_pod : DevPod → Pod → Text → Write → Step W DevPod
  unfolding handle_failed_pod delete_drifted apply_then
  meet_live_pod dp live hash apply =
      if is_failed live.status.phase
      then handle_failed_pod dp live
      else if not
          (text_eq (or_nothing (lookup spec_hash_annotation live.metadata.annotations)) hash)
      then delete_drifted dp live
      else apply_then dp apply

  -- ... and without one: it creates it, unless a failure is too recent.
  unfoldable pub create_or_wait : DevPod → Write → Option ℕ → Step W DevPod
  unfolding apply_then
  create_or_wait dp apply (some left) = set_requeue_after r left >>> λ _. pure dp
  create_or_wait dp apply none = apply_then dp apply

  unfoldable pub create_pod : DevPod → Write → Step W DevPod
  unfolding wait_after create_or_wait
  create_pod dp apply s =
      create_or_wait dp apply
        (wait_after dp.status.last_failure_at dp.status.retry_count (r.cluster.now s.world)) s

  unfoldable pub apply_read : DevPod → Text → Write → GetResult Pod → Step W DevPod
  unfolding meet_live_pod create_pod
  apply_read dp hash apply (found live) = meet_live_pod dp live hash apply
  apply_read dp hash apply not_found = create_pod dp apply
  apply_read dp hash apply (get_failed err) = within (bytes "get live pod") (fail (unread err))

  unfoldable pub apply_pod_with_drift_recreate : DevPod → RenderedPod → Step W DevPod
  unfolding apply_read
  apply_pod_with_drift_recreate dp pod =
      within (bytes "set ownerref")
        (given unowned (r.tools.set_controller dp.metadata (pod_metadata pod)))
      >>> λ owned s.
          let hash = r.tools.spec_hash pod.spec in
          apply_read dp hash (apply_pod (with_hash owned hash) pod.spec)
            (r.cluster.get_pod pod.namespace pod.name s.world) s

  -- updateStatus by the status that it finds right.
  unfoldable pub put_status : DevPod → Outcome Text DevPodStatus → Step W (Unit {0})
  put_status dp (refused err) = within (bytes "get rendered pod") (fail (unread err))
  put_status dp (passed status) =
      if status_equal dp.status status
      then pure tt
      else (must r.cluster (patch_status (with_status dp status)))

  -- What updateStatus sees of the Pod.
  abbrev pub desired_in : DevPod → W → Outcome Text DevPodStatus
  desired_in dp w =
      desired_status dp (backend_port r.tools.sum32 dp r.config) (r.cluster.now w)
        (r.cluster.get_pod r.config.dev_pod_namespace (pod_name dp) w)

  unfoldable pub update_status : DevPod → Step W (Unit {0})
  unfolding put_status
  update_status dp s = put_status dp (desired_in dp s.world) s

  unfoldable pub apply_network_policies : DevPod → Step W (Unit {0})
  unfolding gateway_namespace_of
  apply_network_policies dp =
      if r.config.isolate_network
      then (within (bytes "apply default-deny") (
            server_side_apply r
              (apply_policy (default_deny_network_policy r.config.dev_pod_namespace)))
          >>> λ _. within (bytes "apply allow") (
              server_side_apply r (
                apply_policy (
                  owner_allow_network_policy r.config.dev_pod_namespace dp.spec.owner
                    (gateway_namespace_of r.gateway_namespace)
                    (backend_port r.tools.sum32 dp r.config)))))
      else pure tt

  unfoldable pub apply_all : DevPod → Step W (Unit {0})
  unfolding ensure_host_key_secret apply_pvc apply_pod_with_drift_recreate apply_network_policies
      update_status
  apply_all dp = within (bytes "host key secret") (ensure_host_key_secret dp) >>> λ _.
      within (bytes "apply pvc") (apply_pvc dp) >>> λ _.
      within (bytes "render pod") (given unrendered (render_pod r.tools.sum32 dp r.config))
      >>> λ pod. within (bytes "apply pod") (apply_pod_with_drift_recreate dp pod) >>> λ dp'.
          let svc = render_service r.tools.sum32 dp' r.config in
          within (bytes "apply service") (
            apply_owned r dp' svc.metadata (λ meta. apply_service (record svc { metadata = meta })))
          >>> λ _. apply_network_policies dp' >>> λ _. update_status dp'
