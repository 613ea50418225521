-- ===== src/Controllers/DevPods/Reconcile.antt =====
-- internal/controllers/devpod_controller.go: Reconcile.
use devpods.Prelude.{not, none, some, List, ltb, if◌then◌else◌, passed, Text, bytes}
use devpods.Api.Kube.{found, not_found, get_failed}
use devpods.Api.DevPods.{DevPod}
use devpods.Controllers.Cluster.{update_devpod, unread, Step, pure, fail, ◌>>>◌, within, must}
use devpods.Controllers.DevPods.{
  Reconciler, Requeue, settled, at_once, after, devpod_finalizer, set_requeue_after, hibernate,
  finalize_devpod,
}
use devpods.Controllers.DevPods.Apply.{apply_all, update_status}

module _ {W : Type 0} (r : Reconciler W) where
  -- applyAll behind the reset of requeueAfter, which is read when it passes.
  unfoldable pub run_devpod : DevPod → Step W Requeue
  run_devpod dp = set_requeue_after r 0 >>> λ _. apply_all r dp >>> λ _ s.
      (passed (if ltb 0 s.requeue_after then after s.requeue_after else settled), s)

  unfoldable pub stop_devpod : DevPod → Step W Requeue
  stop_devpod dp = hibernate r dp >>> λ _. update_status r dp >>> λ _. pure settled

  -- The branches behind the finalizer: a stopped DevPod, a virtual machine, no workload, a Pod.
  unfoldable pub drive_devpod : DevPod → Step W Requeue
  unfolding run_devpod stop_devpod
  drive_devpod dp = if not dp.spec.running then stop_devpod dp else elim dp.spec.vm [
    | some vm ↦ pure settled
    | none ↦ elim dp.spec.pod [ none ↦ pure settled | some pod ↦ run_devpod dp ]
  ]

  abbrev pub with_finalizers_of : DevPod → List Text → DevPod
  with_finalizers_of dp fs = record dp { metadata = record dp.metadata { finalizers = fs } }

  unfoldable pub reconcile_present : DevPod → Step W Requeue
  unfolding drive_devpod
  reconcile_present dp = elim dp.metadata.deletion_timestamp [
    | some t ↦ finalize_devpod r dp
    | none ↦
        let (fs, added) = r.tools.finalizers.add devpod_finalizer dp.metadata.finalizers in
        if added
        then (within (bytes "add finalizer")
              (must r.cluster (update_devpod (with_finalizers_of dp fs)))
            >>> λ _. pure at_once)
        else drive_devpod dp
  ]

  unfoldable pub reconcile : Text → Text → Step W Requeue
  unfolding reconcile_present
  reconcile namespace name s = elim (r.cluster.get_devpod namespace name s.world) [
    | not_found ↦ (passed settled, s)
    | get_failed err ↦ within (bytes "get devpod") (fail (unread err)) s
    | found dp ↦ reconcile_present dp s
  ]
