-- ===== src/Controllers/DevPods/Drift.antt =====
-- The recreation of a Pod whose specification has changed.
use devpods.Prelude.{
  insert, ◌≡◌, refl, ◌∙◌, true, false, passed, Text, bytes, text_eq, text_eq_refl, lookup,
  lookup-insert,
}
use devpods.Api.Kube.{GetResult, found, Pod, ObjectMeta}
use devpods.Api.DevPods.{DevPod}
use devpods.Render.Pod.{RenderedPod}
use devpods.Controllers.Cluster.{Write, delete_pod, apply_pod, accepted, Pass}
use devpods.Controllers.Cluster.Laws.{written}
use devpods.Controllers.DevPods.{
  Reconciler, spec_hash_annotation, is_failed, pod_metadata, with_hash,
}
use devpods.Controllers.DevPods.Apply.{
  or_nothing, apply_then, meet_live_pod, apply_read, apply_pod_with_drift_recreate,
}

module _ {W : Type 0} (r : Reconciler W) (dp : DevPod) (pod : RenderedPod)
    (owned : ObjectMeta) where
  abbrev pub hash : Text
  hash = r.tools.spec_hash pod.spec

  -- The write that applies the Pod.
  abbrev pub apply : Write
  apply =
      apply_pod
        (record owned { annotations = insert (bytes "devpod.io/spec-hash") hash owned.annotations })
        pod.spec

  -- The hash that a live Pod carries; the empty text when it carries none.
  abbrev pub carried : Pod → Text
  carried live = or_nothing (lookup (bytes "devpod.io/spec-hash") live.metadata.annotations)

  carried_self :
      (live : Pod)
      → lookup spec_hash_annotation live.metadata.annotations
        ≡ lookup spec_hash_annotation (with_hash owned hash).annotations
      → text_eq (carried live) hash ≡ true
  unfolding text_eq
  carried_self live same =
      rw (same, lookup-insert spec_hash_annotation spec_hash_annotation hash owned.annotations)
        (text_eq_refl hash)

  -- The step behind the owner reference.
  applied :
      (s : Pass W) (got : GetResult Pod)
      → r.tools.set_controller dp.metadata (pod_metadata pod) ≡ passed owned
      → r.cluster.get_pod pod.namespace pod.name s.world ≡ got
      → apply_pod_with_drift_recreate r dp pod s ≡ apply_read r dp hash apply got s
  unfolding apply_pod_with_drift_recreate
  applied s got own read = rw (own, read) refl

  -- A Pod that does not fail and carries the hash with which it was applied is not deleted: it is
  -- applied again.
  pub apply_pod_with_drift_recreate_keeps :
      (s : Pass W) (live : Pod)
      → r.tools.set_controller dp.metadata (pod_metadata pod) ≡ passed owned
      → r.cluster.get_pod pod.namespace pod.name s.world ≡ found live
      → is_failed live.status.phase ≡ false
      → lookup spec_hash_annotation live.metadata.annotations
        ≡ lookup spec_hash_annotation (with_hash owned hash).annotations
      → apply_pod_with_drift_recreate r dp pod s ≡ apply_then r dp apply s
  unfolding apply_read meet_live_pod
  apply_pod_with_drift_recreate_keeps s live own read sound same =
      applied s (found live) own read ∙ rw (sound, carried_self live same) refl

  -- The pass after the deletion of a drifted Pod.
  abbrev pub emptied : Pass W → Pod → Pass W
  emptied s live =
      written r.cluster (delete_pod live.metadata.namespace live.metadata.name) accepted s
