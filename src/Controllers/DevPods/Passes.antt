-- ===== src/Controllers/DevPods/Passes.antt =====
-- What a pass over a DevPod writes: its status, its host key, its Pod after a failure.
use devpods.Prelude.{
  ℕ, ◌+◌, ◌-◌, ◌*◌, ◌≤◌, ◌<◌, ◌≡◌, refl, sym, ap, ◌∙◌, subst, ◌≢◌, ◌↔◌, inl, inr, Bool, true, false,
  ◌&&◌, Option, none, some, ◌∷◌, arith, ltb, ◌==◌, ltb→lt, lt→ltb, Bool-cases, passed,
  refused-ne-passed, bytes, text_eq, is_empty, lookup,
}
use devpods.Api.Kube.{GetResult, found, not_found, Pod}
use devpods.Api.Objects.{Secret}
use devpods.Api.DevPods.{DevPod, DevPodStatus, phase_text}
use devpods.Render.Naming.{pod_name, host_key_secret_name, backend_port}
use devpods.Controllers.Backoff.{failure_backoff}
use devpods.Controllers.Cluster.{Write, patch_status, WriteResult, Pass, must}
use devpods.Controllers.Cluster.Laws.{must-Ends}
use devpods.Controllers.DevPods.Status.{
  blank_status, desired_status, running_status, status_equal, time_ptr_equal, with_status,
  workload_ref_equal, local_ref_equal,
}
use devpods.Controllers.DevPods.Status.Laws.{
  desired_status_again, status_equal-with_status, desired_status-on,
}
use devpods.Controllers.DevPods.{Reconciler, second}
use devpods.Controllers.DevPods.Apply.{
  desired_in, update_status, put_status, create_pod, create_or_wait, wait_left, wait_after,
  check_host_key, ensure_read, ensure_host_key_secret, or_nothing, apply_then,
}

false-ne-true : false ≢ true
false-ne-true h = cc

all_but_last : (a b c d e f g h : Bool) → h ≡ false → (a && b && c && d && e && f && g && h) ≡ false
all_but_last a b c d e f g h k = ground arith

status_differs :
    (a b : DevPodStatus)
    → time_ptr_equal a.last_failure_at b.last_failure_at ≡ false
    → status_equal a b ≡ false
unfolding status_equal
status_differs a b h =
    all_but_last (text_eq (phase_text a.phase) (phase_text b.phase)) (text_eq a.endpoint b.endpoint)
      (a.retry_count == b.retry_count) (text_eq a.message b.message)
      (workload_ref_equal a.workload_ref b.workload_ref)
      (local_ref_equal a.persistent_volume_claim_ref b.persistent_volume_claim_ref)
      (time_ptr_equal a.hibernated_at b.hibernated_at)
      (time_ptr_equal a.last_failure_at b.last_failure_at) h

wait_left-short :
    (n t now : ℕ)
    → now < t + failure_backoff n * second
    → wait_left n t now ≡ some (t + failure_backoff n * second - now)
unfolding wait_left
wait_left-short n t now h = rw (lt→ltb now (t + failure_backoff n * second) h) refl

wait_left-long : (n t now : ℕ) → t + failure_backoff n * second ≤ now → wait_left n t now ≡ none
unfolding wait_left
wait_left-long n t now h = elim (Bool-cases (ltb now (t + failure_backoff n * second))) [
  | inl e ↦ absurd (omega (arith, h, ltb→lt now (t + failure_backoff n * second) e))
  | inr e ↦ rw e refl
]

put_status_differs :
    {W : Type 0} (r : Reconciler W) (dp : DevPod) (st : DevPodStatus) (s : Pass W)
    → status_equal dp.status st ≡ false
    → put_status r dp (passed st) s ≡ must r.cluster (patch_status (with_status dp st)) s
unfolding put_status
put_status_differs r dp st s h = rw h refl

put_status_settled :
    {W : Type 0} (r : Reconciler W) (dp : DevPod) (st : DevPodStatus) (s : Pass W)
    → put_status r (with_status dp st) (passed st) s ≡ (passed tt, s)
unfolding put_status
put_status_settled r dp st s = rw (status_equal-with_status dp st) refl

module _ {W : Type 0} (r : Reconciler W) (dp : DevPod) where
  abbrev pub pod_in : W → GetResult Pod
  pod_in w = r.cluster.get_pod r.config.dev_pod_namespace (pod_name dp) w

  -- The step updateStatus settles: once a DevPod has the status that the step finds right, the step writes
  -- no status again when it finds the same Pod, at whatever time it comes. The steps before it, which
  -- count the failures of a failed Pod, are not meant.
  pub update_status_settles :
      (s t : Pass W) (st : DevPodStatus)
      → pod_in t.world ≡ pod_in s.world
      → desired_in r dp s.world ≡ passed st
      → update_status r (with_status dp st) t ≡ (passed tt, t)
  unfolding update_status with_status backend_port pod_name
  update_status_settles s t st same h =
      let port = backend_port r.tools.sum32 dp r.config in
      let again =
        desired_status_again dp port (r.cluster.now s.world) (r.cluster.now t.world)
          (pod_in s.world) st h in
      let in_t : desired_in r (with_status dp st) t.world ≡ passed st =
        subst (λ g. desired_status (with_status dp st) port (r.cluster.now t.world) g ≡ passed st)
          (sym same) again in
      ap (λ d. put_status r (with_status dp st) d t) in_t ∙ put_status_settled r dp st t

  -- The DevPod as a pass that finds no Pod writes it.
  abbrev pub podless : DevPod
  podless = with_status dp (blank_status dp)

  some_failure : (o : Option ℕ) (t : ℕ) → o ≡ some t → time_ptr_equal o none ≡ false
  unfolding time_ptr_equal
  some_failure none t h = cc
  some_failure (some u) t h = refl

  podless-desired :
      (w : W)
      → dp.spec.running ≡ true
      → pod_in w ≡ not_found
      → desired_in r dp w ≡ passed (blank_status dp)
  unfolding desired_status running_status
  podless-desired w on gone =
      desired_status-on dp _ (r.cluster.now w) (pod_in w) on
      ∙ ap (running_status dp (backend_port r.tools.sum32 dp r.config)) gone

  -- The record of a failure is lost with the Pod: when a pass over a DevPod that should run and has a
  -- failure on record finds no Pod, as right after it deleted the failed one, it writes a status without
  -- the failure, and on that status the creation of the Pod does not wait, whatever the backoff.
  pub update_status_forgets :
      (s : Pass W) (t : ℕ)
      → dp.spec.running ≡ true
      → dp.status.last_failure_at ≡ some t
      → pod_in s.world ≡ not_found
      → ((res : WriteResult) × ((update_status r dp s).1.writes
            ≡ (patch_status podless, res) ∷ s.writes))
        × ((apply : Write) (u : Pass W)
            → create_pod r podless apply u ≡ apply_then r podless apply u)
  unfolding update_status put_status create_pod create_or_wait wait_after with_status
  update_status_forgets s t on failure gone =
      let differ = status_differs dp.status (blank_status dp) (some_failure _ t failure) in
      let step =
        ap (λ d. put_status r dp d s) (podless-desired s.world on gone)
        ∙ put_status_differs r dp (blank_status dp) s differ in
      let (res, log, _) = must-Ends r.cluster (patch_status podless) s in
      (
        (res, subst (λ p. p.1.writes ≡ (patch_status podless, res) ∷ s.writes) (sym step) log),
        λ apply u. refl,
      )

  -- Without a Pod, and with a failure on record, the Pod is applied exactly when the backoff of the
  -- count of retries has passed since the failure; before that nothing is written, and the pass asks
  -- to be called again when it has passed.
  create_pod_waits :
      (apply : Write) (s : Pass W) (t : ℕ)
      → dp.status.last_failure_at ≡ some t
      → (r.cluster.now s.world < t + failure_backoff dp.status.retry_count * second
          → create_pod r dp apply s ≡ (
            passed dp,
            record s {
              requeue_after =
                  t + failure_backoff dp.status.retry_count * second - r.cluster.now s.world;
            },
          ))
        × (t + failure_backoff dp.status.retry_count * second ≤ r.cluster.now s.world
            → create_pod r dp apply s ≡ apply_then r dp apply s)
  unfolding create_pod create_or_wait wait_after wait_left
  create_pod_waits apply s t failure =
      let now = r.cluster.now s.world in
      let wait = ap (λ o. wait_after o dp.status.retry_count now) failure in
      (
        λ early.
            ap (λ o. create_or_wait r dp apply o s)
              (wait ∙ wait_left-short dp.status.retry_count t now early),
        λ late.
            ap (λ o. create_or_wait r dp apply o s)
              (wait ∙ wait_left-long dp.status.retry_count t now late),
      )

  check_host_key_keeps :
      (existing : Secret) (s : Pass W)
      → ((check_host_key r dp existing s).1 ≡ s)
        × (((check_host_key r dp existing s).0 ≡ passed tt) ↔ (
            (r.tools.is_controlled_by existing.metadata dp.metadata ≡ true)
            × (is_empty (or_nothing (lookup (bytes "ssh_host_ed25519_key") existing.contents))
                ≡ false)))
  unfolding check_host_key
  check_host_key_keeps existing s =
      elim (Bool-cases (r.tools.is_controlled_by existing.metadata dp.metadata)) [
        | inr foreign ↦
            rw foreign (refl, (λ k. absurd (refused-ne-passed k), λ h. absurd (false-ne-true h.0)))
        | inl own ↦
            elim (Bool-cases
              (is_empty (or_nothing (lookup (bytes "ssh_host_ed25519_key") existing.contents)))) [
                | inl empty ↦
                    rw (own, empty)
                      (
                        refl,
                        (λ k. absurd (refused-ne-passed k), λ h. absurd (false-ne-true (sym h.1))),
                      )
                | inr full ↦ rw (own, full) (refl, (λ _. (refl, refl), λ _. refl))
              ]
      ]

  -- A host key that is there is never replaced: the pass writes nothing, and goes on exactly when the
  -- Secret is controlled by the DevPod and holds a key that is not empty.
  pub ensure_host_key_secret_keeps :
      (s : Pass W) (existing : Secret)
      → r.cluster.get_secret r.config.dev_pod_namespace (host_key_secret_name dp) s.world
        ≡ found existing
      → ((ensure_host_key_secret r dp s).1 ≡ s)
        × (((ensure_host_key_secret r dp s).0 ≡ passed tt) ↔ (
            (r.tools.is_controlled_by existing.metadata dp.metadata ≡ true)
            × (is_empty (or_nothing (lookup (bytes "ssh_host_ed25519_key") existing.contents))
                ≡ false)))
  unfolding ensure_host_key_secret ensure_read check_host_key
  ensure_host_key_secret_keeps s existing h = rw h (check_host_key_keeps existing s)
