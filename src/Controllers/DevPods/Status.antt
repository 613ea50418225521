-- ===== src/Controllers/DevPods/Status.antt =====
-- internal/controllers/devpod_controller.go, updateStatus without its calls: the status that a DevPod
-- should have by its specification and its Pod, and the comparison with the one that it has.
pub mod Laws
use devpods.Prelude.{
  ℕ, zero, suc, ◌+◌, ◌-◌, ◌*◌, ◌/◌, ◌%◌, ◌^◌, ◌≤◌, ◌<◌, ◌≡◌, refl, sym, ap, ◌∙◌, subst, ◌≢◌, ◌↔◌,
  ◌⊎◌, inl, inr, Bool, true, false, not, ◌&&◌, ◌||◌, Option, none, some, List, [], ◌∷◌, ◌++◌, map,
  append_assoc, append-nil, arith, ltb, leb, ◌==◌, if◌then◌else◌, ltb→lt, lt→ltb, leb→le, le→leb,
  ==_iff, tests, Bool-cases, Option-cases, and-true, is_none, some-injective, Outcome, refused,
  passed, ◌>>=◌, or_refuse, refuse_if, passed-injective, refused-ne-passed, Outcome-cases,
  >>=-passed, or_refuse-passed, refuse_if-passed, guarded, length, length-append, List-cases, all,
  All, All-append, Text, bytes, text_eq, text_eq_refl, text_eq_iff, Text-cases, text_neq-sym,
  is_empty, has_prefix, contains, itoa, digits, Dict, lookup, insert, remove, lookup-insert,
  lookup-remove,
}
use devpods.Api.Kube.{
  GetResult, found, not_found, get_failed, Pod, PodPhase, pod_running, pod_failed,
}
use devpods.Api.DevPods.{
  DevPod, DevPodStatus, DevPodPhase, WorkloadRef, LocalObjectRef, pending, running, stopped, failed,
  phase_text,
}
use devpods.Api.Config.{GatewayConfigSpec}
use devpods.Render.Naming.{home_pvc_name, backend_port}

-- The desired status of a DevPod that should run and has no Pod; the branches change it.
abbrev pub blank_status : DevPod → DevPodStatus
blank_status dp = record {
  phase = pending;
  endpoint = [];
  workload_ref = none;
  persistent_volume_claim_ref = elim dp.spec.persistence [
    | none ↦ none
    | some p ↦ some (record { name = home_pvc_name dp })
  ];
  last_activity_time = none;
  hibernated_at = none;
  retry_count = 0;
  last_failure_at = none;
  message = [];
}

unfoldable pub is_stopped : DevPodPhase → Bool
is_stopped stopped = true
is_stopped _ = false

-- The time of the hibernation is kept once the DevPod is stopped.
unfoldable pub stopped_status : DevPod → ℕ → DevPodStatus
unfolding is_stopped
stopped_status dp now = record (blank_status dp) {
  phase = stopped;
  hibernated_at =
      if not (is_none dp.status.hibernated_at) && is_stopped dp.status.phase
      then dp.status.hibernated_at
      else some now;
}

-- The branches on the phase of the Pod: running with an address, failed, and the others.
abbrev pub phase_status : DevPod → ℕ → Pod → PodPhase → Text → DevPodStatus → DevPodStatus
phase_status dp port pod pod_running [] base = base
phase_status dp port pod pod_running (c ∷ cs) base = record base {
  phase = running;
  endpoint = (c ∷ cs) ++ b':' ∷ itoa port;
}
phase_status dp port pod pod_failed ip base = record base {
  phase = failed;
  retry_count = dp.status.retry_count;
  last_failure_at = dp.status.last_failure_at;
  message = dp.status.message;
}
phase_status dp port pod _ ip base = base

unfoldable pub pod_status : DevPod → ℕ → Pod → DevPodStatus
pod_status dp port pod =
    phase_status dp port pod pod.status.phase pod.status.pod_ip (record (blank_status dp) {
      workload_ref =
          some (record { api_version = bytes "v1"; kind = bytes "Pod"; name = pod.metadata.name });
    })

-- The status of a DevPod that should run, by what the read of its Pod gives.
unfoldable pub running_status : DevPod → ℕ → GetResult Pod → Outcome Text DevPodStatus
unfolding pod_status
running_status dp port (found pod) = passed (pod_status dp port pod)
running_status dp port not_found = passed (blank_status dp)
running_status dp port (get_failed err) = refused err

unfoldable pub desired_status : DevPod → ℕ → ℕ → GetResult Pod → Outcome Text DevPodStatus
unfolding stopped_status running_status
desired_status dp port now pod =
    if not dp.spec.running then passed (stopped_status dp now) else running_status dp port pod

unfoldable pub time_ptr_equal : Option ℕ → Option ℕ → Bool
time_ptr_equal none none = true
time_ptr_equal none (some b) = false
time_ptr_equal (some a) none = false
time_ptr_equal (some a) (some b) = a == b

unfoldable pub workload_ref_equal : Option WorkloadRef → Option WorkloadRef → Bool
workload_ref_equal none none = true
workload_ref_equal none (some b) = false
workload_ref_equal (some a) none = false
workload_ref_equal (some a) (some b) =
    text_eq a.api_version b.api_version && text_eq a.kind b.kind && text_eq a.name b.name

unfoldable pub local_ref_equal : Option LocalObjectRef → Option LocalObjectRef → Bool
local_ref_equal none none = true
local_ref_equal none (some b) = false
local_ref_equal (some a) none = false
local_ref_equal (some a) (some b) = text_eq a.name b.name

unfoldable pub status_equal : DevPodStatus → DevPodStatus → Bool
unfolding time_ptr_equal workload_ref_equal local_ref_equal
status_equal a b =
    text_eq (phase_text a.phase) (phase_text b.phase)
    && text_eq a.endpoint b.endpoint
    && (a.retry_count == b.retry_count)
    && text_eq a.message b.message
    && workload_ref_equal a.workload_ref b.workload_ref
    && local_ref_equal a.persistent_volume_claim_ref b.persistent_volume_claim_ref
    && time_ptr_equal a.hibernated_at b.hibernated_at
    && time_ptr_equal a.last_failure_at b.last_failure_at

-- The copy of the fields into the DevPod in memory: the time of the last activity is not among them.
unfoldable pub with_status : DevPod → DevPodStatus → DevPod
with_status dp desired = record dp {
  status = record desired { last_activity_time = dp.status.last_activity_time };
}
