-- ===== src/Controllers/DevPods/Status/Laws.antt =====
-- What the status of a DevPod says of its Pod, and that a status that is written needs no second
-- write.
use devpods.Prelude.{
  ℕ, ◌≡◌, refl, sym, ap, ◌∙◌, subst, ◌≢◌, ◌↔◌, inl, inr, Bool, true, false, not, ◌&&◌, ◌||◌, Option,
  none, some, [], ◌∷◌, ◌++◌, arith, ◌==◌, if◌then◌else◌, Bool-cases, is_none, passed,
  passed-injective, refused-ne-passed, Text, bytes, text_eq_refl, is_empty, itoa,
}
use devpods.Api.Kube.{
  GetResult, found, not_found, get_failed, Pod, PodPhase, pod_unset, pod_pending, pod_running,
  pod_succeeded, pod_failed, pod_unknown,
}
use devpods.Api.DevPods.{
  DevPod, DevPodStatus, WorkloadRef, LocalObjectRef, stopped, phase_text, is_running,
}
use devpods.Render.Naming.{home_pvc_name}
use devpods.Controllers.DevPods.Status.{
  blank_status, is_stopped, stopped_status, phase_status, pod_status, running_status,
  desired_status, time_ptr_equal, workload_ref_equal, local_ref_equal, status_equal, with_status,
}

time_ptr_equal_refl : (t : Option ℕ) → time_ptr_equal t t ≡ true
unfolding time_ptr_equal
time_ptr_equal_refl none = refl
time_ptr_equal_refl (some t) = ground arith

workload_ref_equal_refl : (ref : Option WorkloadRef) → workload_ref_equal ref ref ≡ true
unfolding workload_ref_equal
workload_ref_equal_refl none = refl
workload_ref_equal_refl (some ref) =
    rw (text_eq_refl ref.api_version, text_eq_refl ref.kind, text_eq_refl ref.name) refl

local_ref_equal_refl : (ref : Option LocalObjectRef) → local_ref_equal ref ref ≡ true
unfolding local_ref_equal
local_ref_equal_refl none = refl
local_ref_equal_refl (some ref) = text_eq_refl ref.name

same_count : (n : ℕ) → (n == n) ≡ true
same_count n = ground arith

status_equal_refl : (a : DevPodStatus) → status_equal a a ≡ true
unfolding status_equal
status_equal_refl a =
    rw
      (
        text_eq_refl (phase_text a.phase),
        text_eq_refl a.endpoint,
        same_count a.retry_count,
        text_eq_refl a.message,
        workload_ref_equal_refl a.workload_ref,
        local_ref_equal_refl a.persistent_volume_claim_ref,
        time_ptr_equal_refl a.hibernated_at,
        time_ptr_equal_refl a.last_failure_at,
      )
      refl

-- The time of the last activity plays no part in the comparison.
pub status_equal-with_status :
    (dp : DevPod) (st : DevPodStatus) → status_equal (with_status dp st).status st ≡ true
unfolding status_equal with_status
status_equal-with_status dp st = status_equal_refl st

phase_status_again :
    (dp : DevPod) (port : ℕ) (pod : Pod) (phase : PodPhase) (ip : Text) (base : DevPodStatus)
    → phase_status (with_status dp (phase_status dp port pod phase ip base)) port pod phase ip base
      ≡ phase_status dp port pod phase ip base
unfolding with_status
phase_status_again dp port pod pod_unset ip base = refl
phase_status_again dp port pod pod_pending ip base = refl
phase_status_again dp port pod pod_running [] base = refl
phase_status_again dp port pod pod_running (c ∷ cs) base = refl
phase_status_again dp port pod pod_succeeded ip base = refl
phase_status_again dp port pod pod_failed ip base = refl
phase_status_again dp port pod pod_unknown ip base = refl

pod_status_again :
    (dp : DevPod) (port : ℕ) (pod : Pod)
    → pod_status (with_status dp (pod_status dp port pod)) port pod ≡ pod_status dp port pod
unfolding pod_status with_status home_pvc_name
pod_status_again dp port pod =
    phase_status_again dp port pod pod.status.phase pod.status.pod_ip (record (blank_status dp) {
      workload_ref =
          some (record { api_version = bytes "v1"; kind = bytes "Pod"; name = pod.metadata.name });
    })

hibernated_again :
    (h : Option ℕ) (b : Bool) (now now' : ℕ)
    → (if not (is_none (if not (is_none h) && b then h else some now)) && true
        then (if not (is_none h) && b then h else some now)
        else some now')
      ≡ (if not (is_none h) && b then h else some now)
hibernated_again none b now now' = refl
hibernated_again (some t) true now now' = refl
hibernated_again (some t) false now now' = refl

stopped_status_again :
    (dp : DevPod) (now now' : ℕ)
    → stopped_status (with_status dp (stopped_status dp now)) now' ≡ stopped_status dp now
unfolding stopped_status with_status home_pvc_name
stopped_status_again dp now now' =
    ap (λ h. record (blank_status dp) { phase = stopped; hibernated_at = h })
      (hibernated_again dp.status.hibernated_at (is_stopped dp.status.phase) now now')

running_status_again :
    (dp : DevPod) (port : ℕ) (pod : GetResult Pod) (st : DevPodStatus)
    → running_status dp port pod ≡ passed st
    → running_status (with_status dp st) port pod ≡ passed st
unfolding running_status with_status home_pvc_name
running_status_again dp port (found pod) st h =
    rw (sym (passed-injective h)) (ap passed (pod_status_again dp port pod))
running_status_again dp port not_found st h = rw (sym (passed-injective h)) refl
running_status_again dp port (get_failed err) st h = absurd (refused-ne-passed h)

-- A status that updateStatus finds right is found right again, whatever time has passed, as long as
-- the Pod is the same.
pub desired_status_again :
    (dp : DevPod) (port now now' : ℕ) (pod : GetResult Pod) (st : DevPodStatus)
    → desired_status dp port now pod ≡ passed st
    → desired_status (with_status dp st) port now' pod ≡ passed st
unfolding with_status desired_status running_status home_pvc_name
desired_status_again dp port now now' pod st h = elim (Bool-cases dp.spec.running) [
  | inl on ↦
      rw (desired_status, on) (running_status_again dp port pod st (rw (desired_status, on) at h))
  | inr off ↦
      let k : stopped_status dp now ≡ st = passed-injective (rw (desired_status, off) at h) in
      rw (desired_status, off) (rw (sym k) (ap passed (stopped_status_again dp now now')))
]

-- The gateway's readiness check on a status.
abbrev pub is_ready : DevPodStatus → Bool
is_ready st = not (not (is_running st.phase) || is_empty st.endpoint)

-- A Pod that runs and has an address, for a DevPod that should run.
abbrev pub IsServing : DevPod → ℕ → GetResult Pod → DevPodStatus → Type 0
IsServing dp port got st =
    (dp.spec.running ≡ true)
    × ((pod : Pod) × (got ≡ found pod)
        × (pod.status.phase ≡ pod_running)
        × (pod.status.pod_ip ≢ [])
        × (st.endpoint ≡ pod.status.pod_ip ++ b':' ∷ itoa port))

phase_status-is_ready :
    (dp : DevPod) (port : ℕ) (pod : Pod) (phase : PodPhase) (ip : Text) (base : DevPodStatus)
    → is_ready base ≡ false
    → (is_ready (phase_status dp port pod phase ip base) ≡ true) ↔ (
        (phase ≡ pod_running)
        × (ip ≢ [])
        × ((phase_status dp port pod phase ip base).endpoint ≡ ip ++ b':' ∷ itoa port))
unfolding is_running
phase_status-is_ready dp port pod pod_unset ip base h = (λ k. cc, λ k. absurd (let e = k.0 in cc))
phase_status-is_ready dp port pod pod_pending ip base h = (λ k. cc, λ k. absurd (let e = k.0 in cc))
phase_status-is_ready dp port pod pod_running [] base h = (λ k. cc, λ k. absurd (k.1 refl))
phase_status-is_ready dp port pod pod_running (c ∷ cs) base h =
    (λ k. (refl, λ e. cc, refl), λ k. refl)
phase_status-is_ready dp port pod pod_succeeded ip base h =
    (λ k. cc, λ k. absurd (let e = k.0 in cc))
phase_status-is_ready dp port pod pod_failed ip base h = (λ k. cc, λ k. absurd (let e = k.0 in cc))
phase_status-is_ready dp port pod pod_unknown ip base h = (λ k. cc, λ k. absurd (let e = k.0 in cc))

pod_status-is_ready :
    (dp : DevPod) (port : ℕ) (pod : Pod)
    → (is_ready (pod_status dp port pod) ≡ true) ↔ (
        (pod.status.phase ≡ pod_running)
        × (pod.status.pod_ip ≢ [])
        × ((pod_status dp port pod).endpoint ≡ pod.status.pod_ip ++ b':' ∷ itoa port))
unfolding pod_status is_running
pod_status-is_ready dp port pod =
    phase_status-is_ready dp port pod pod.status.phase pod.status.pod_ip
      (record (blank_status dp) {
        workload_ref =
            some
              (record { api_version = bytes "v1"; kind = bytes "Pod"; name = pod.metadata.name });
      })
      refl

found-injective : {a b : Pod} → ◌≡◌ {A = GetResult Pod} (found a) (found b) → a ≡ b
found-injective h = cc

not_found-ne-found : {a : Pod} → ◌≢◌ {A = GetResult Pod} not_found (found a)
not_found-ne-found h = cc

true-ne-false : true ≢ false
true-ne-false h = cc

running_status-is_ready :
    (dp : DevPod) (port : ℕ) (got : GetResult Pod) (st : DevPodStatus)
    → dp.spec.running ≡ true
    → running_status dp port got ≡ passed st
    → (is_ready st ≡ true) ↔ IsServing dp port got st
unfolding running_status is_running
running_status-is_ready dp port (found pod) st on h =
    let e = passed-injective h in
    let (to, from) = pod_status-is_ready dp port pod in
    (
      λ ready.
          (let (p, ip, ep) = to (rw e ready) in
            (
              on,
              (
                pod,
                refl,
                p,
                ip,
                subst (λ x. x.endpoint ≡ pod.status.pod_ip ++ b':' ∷ itoa port) e ep,
              ),
            )),
      λ (_, (q, same, p, ip, ep)).
          (let k : q ≡ pod = sym (found-injective same) in
            subst (λ x. is_ready x ≡ true) e
              (from (
                subst (λ x. x.status.phase ≡ pod_running) k p,
                subst (λ x. x.status.pod_ip ≢ []) k ip,
                subst (λ x. (pod_status dp port pod).endpoint ≡ x.status.pod_ip ++ b':' ∷ itoa port)
                    k (ap (λ x. x.endpoint) e ∙ ep),
              ))),
    )
running_status-is_ready dp port not_found st on h =
    let e = passed-injective h in
    (
      λ ready. absurd (true-ne-false (sym (subst (λ x. is_ready x ≡ true) (sym e) ready))),
      λ (_, (q, same, _, _, _)). absurd (not_found-ne-found same),
    )
running_status-is_ready dp port (get_failed err) st on h = absurd (refused-ne-passed h)

-- The gateway lets users in, by the phase and the endpoint of a status, exactly when the DevPod should
-- run and its Pod runs and has an address; the endpoint is then that address with the port of the
-- backend. This holds of every status that updateStatus finds right.
pub desired_status-is_ready_iff :
    (dp : DevPod) (port now : ℕ) (got : GetResult Pod) (st : DevPodStatus)
    → desired_status dp port now got ≡ passed st
    → (is_ready st ≡ true) ↔ IsServing dp port got st
unfolding desired_status stopped_status is_running home_pvc_name
desired_status-is_ready_iff dp port now got st h = elim (Bool-cases dp.spec.running) [
  | inl on ↦ running_status-is_ready dp port got st on (rw (desired_status, on) at h)
  | inr off ↦
      let k : stopped_status dp now ≡ st = passed-injective (rw (desired_status, off) at h) in
      (
        λ ready. absurd (true-ne-false (sym (subst (λ x. is_ready x ≡ true) (sym k) ready))),
        λ (on, _). absurd (true-ne-false (sym on ∙ off)),
      )
]

if_not-on {ℓ} : {A : Type ℓ} (b : Bool) (x y : A) → b ≡ true → (if not b then x else y) ≡ y
if_not-on true x y h = refl
if_not-on false x y h = cc

pub desired_status-on :
    (dp : DevPod) (port now : ℕ) (got : GetResult Pod)
    → dp.spec.running ≡ true
    → desired_status dp port now got ≡ running_status dp port got
unfolding desired_status
desired_status-on dp port now got on = if_not-on dp.spec.running _ _ on
