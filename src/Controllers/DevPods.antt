-- ===== src/Controllers/DevPods.antt =====
-- internal/controllers/devpod_controller.go: one reconciliation of a DevPod. The receiver is the
-- record Reconciler; its field requeueAfter is part of the pass, and the DevPod in memory, whose
-- status the steps change, is passed along.
pub mod Status
pub mod Apply
pub mod Reconcile
pub mod Deletion
pub mod Passes
pub mod Drift
mod Tests
use devpods.Prelude.{
  ℕ, zero, suc, ◌+◌, ◌-◌, ◌*◌, ◌/◌, ◌%◌, ◌^◌, ◌≤◌, ◌<◌, ◌≡◌, refl, sym, ap, ◌∙◌, subst, ◌≢◌, ◌↔◌,
  ◌⊎◌, inl, inr, Bool, true, false, not, ◌&&◌, ◌||◌, Option, none, some, List, [], ◌∷◌, ◌++◌, map,
  append_assoc, append-nil, arith, ltb, leb, ◌==◌, if◌then◌else◌, ltb→lt, lt→ltb, leb→le, le→leb,
  ==_iff, tests, Bool-cases, Option-cases, and-true, is_none, some-injective, Outcome, refused,
  passed, ◌>>=◌, or_refuse, refuse_if, passed-injective, refused-ne-passed, Outcome-cases,
  >>=-passed, or_refuse-passed, refuse_if-passed, guarded, length, length-append, List-cases, all,
  All, All-append, Text, bytes, text_eq, text_eq_refl, text_eq_iff, Text-cases, text_neq-sym,
  is_empty, has_prefix, contains, itoa, digits, Dict, lookup, insert, remove, lookup-insert,
  lookup-remove,
}
use devpods.Api.Kube.{
  GetResult, found, not_found, get_failed, ObjectMeta, OwnerReference, PodSpec, Pod, PodPhase,
  pod_failed, ContainerStatus, Terminated,
}
use devpods.Api.Objects.{Claim, Secret, NetworkPolicy}
use devpods.Api.DevPods.{DevPod, failed}
use devpods.Api.Config.{GatewayConfigSpec}
use devpods.Render.Naming.{
  pod_name, host_key_secret_name, home_pvc_name, owner_net_pol_name, backend_port,
}
use devpods.Render.Objects.{
  KeyTool, metadata_of, render_service, render_home_pvc, render_host_key_secret,
}
use devpods.Render.Network.{default_deny_network_policy, owner_allow_network_policy}
use devpods.Render.Pod.{RenderedPod, render_pod}
use devpods.Controllers.Backoff.{failure_backoff}
use devpods.Controllers.Users.{FinalizerUtil}
use devpods.Controllers.Cluster.{
  Write, update_devpod, patch_status, delete_pod, delete_policy, patch_claim, apply_claim,
  create_secret, apply_pod, apply_service, apply_policy, WriteResult, accepted, missing,
  exists_already, rejected, Cluster, unread, unlisted, unkeyed, unowned, unknown_kind, unwritten,
  unrendered, not_controlled, key_missing, Pass, Step, pure, fail, given, ◌>>>◌, within, perform,
  accept, accept_missing, must, must_or_missing,
}
use devpods.Controllers.DevPods.Status.{desired_status, status_equal, with_status}

-- The libraries: the coding of keys, the hash of the port, the SHA-256 of a printed specification, the
-- finalizers and the owner references of controller-runtime and metav1, and the kinds of the scheme.
pub record Tools : Type 0 where
  pub keys : KeyTool
  pub sum32 : Text → ℕ
  pub spec_hash : PodSpec → Text
  pub finalizers : FinalizerUtil
  pub is_controlled_by : ObjectMeta → ObjectMeta → Bool
  pub set_controller : ObjectMeta → ObjectMeta → Outcome Text ObjectMeta
  pub object_kinds : Write → Outcome Text (Unit {0})

pub record Reconciler (W : Type 0) : Type 0 where
  pub cluster : Cluster W
  pub tools : Tools
  pub config : GatewayConfigSpec
  pub gateway_namespace : Text
  pub gateway_internal_pub : Text

pub data Requeue : Type 0 where
  settled at_once : Requeue
  after : ℕ → Requeue

abbrev pub devpod_finalizer : Text
devpod_finalizer = bytes "devpod.io/devpod-cleanup"

abbrev pub spec_hash_annotation : Text
spec_hash_annotation = bytes "devpod.io/spec-hash"

abbrev pub second : ℕ
second = 1000000000

pub is_own_reference : DevPod → OwnerReference → Bool
is_own_reference dp ref = text_eq ref.kind (bytes "DevPod") && text_eq ref.uid dp.metadata.uid

-- The loop of detachPVC: the references that stay, and whether one does not.
pub filter_references : DevPod → List OwnerReference → List OwnerReference × Bool
unfolding is_own_reference
filter_references dp [] = ([], false)
filter_references dp (ref ∷ refs) =
    let (filtered, changed) = filter_references dp refs in
    if is_own_reference dp ref then (filtered, true) else (ref ∷ filtered, changed)

abbrev pub with_references : Claim → List OwnerReference → Claim
with_references c refs = record c { metadata = record c.metadata { owner_references = refs } }

-- The loop over the siblings: whether one keeps the policy.
unfoldable pub has_live_sibling : DevPod → List DevPod → Bool
has_live_sibling dp [] = false
has_live_sibling dp (s ∷ siblings) =
    let rest = has_live_sibling dp siblings in
    if text_eq s.metadata.uid dp.metadata.uid
    then rest
    else if not (text_eq s.spec.owner dp.spec.owner)
    then rest
    else if is_none s.metadata.deletion_timestamp
    then true
    else rest

-- podFailureMessage.
abbrev pub terminated_message : Option Terminated → Text
terminated_message none = []
terminated_message (some t) = if is_empty t.message then t.reason else t.message

abbrev pub first_text : Text → Text → Text
first_text [] b = b
first_text (c ∷ cs) b = c ∷ cs

unfoldable pub container_message : List ContainerStatus → Text
container_message [] = []
container_message (cs ∷ rest) =
    first_text (terminated_message cs.terminated) (container_message rest)

unfoldable pub pod_failure_message : Pod → Text
unfolding container_message
pod_failure_message pod =
    first_text (container_message pod.status.container_statuses)
      (first_text pod.status.message (first_text pod.status.reason (bytes "pod failed")))

abbrev pub is_failed : PodPhase → Bool
is_failed pod_failed = true
is_failed _ = false

-- The metadata of a rendered Pod, and what is added to it.
abbrev pub pod_metadata : RenderedPod → ObjectMeta
pod_metadata pod = record (metadata_of pod.name pod.namespace pod.labels) {
  annotations = pod.annotations;
}

abbrev pub with_hash : ObjectMeta → Text → ObjectMeta
with_hash meta hash = record meta {
  annotations = insert spec_hash_annotation hash meta.annotations;
}

-- The DevPod in memory after a failure of its Pod, at the time `now`.
unfoldable pub with_failure : DevPod → Text → ℕ → DevPod
with_failure dp message now = record dp {
  status = record dp.status {
    phase = failed;
    retry_count = (dp.status.retry_count + 1) % 2 ^ 32;
    last_failure_at = some now;
    message = message;
  };
}

module _ {W : Type 0} (r : Reconciler W) where
  abbrev pub set_requeue_after : ℕ → Step W (Unit {0})
  set_requeue_after n s = (passed tt, record s { requeue_after = n })

  unfoldable pub server_side_apply : Write → Step W (Unit {0})
  server_side_apply w =
      within (bytes "scheme.ObjectKinds") (given unknown_kind (r.tools.object_kinds w)) >>> λ _.
      must r.cluster w

  -- applyOwned, for an object that is its metadata and the rest.
  unfoldable pub apply_owned : DevPod → ObjectMeta → (ObjectMeta → Write) → Step W (Unit {0})
  unfolding server_side_apply
  apply_owned dp meta obj = given unowned (r.tools.set_controller dp.metadata meta) >>> λ owned.
      server_side_apply (obj owned)

  unfoldable pub hibernate : DevPod → Step W (Unit {0})
  hibernate dp =
      within (bytes "delete pod")
        (must_or_missing r.cluster (delete_pod r.config.dev_pod_namespace (pod_name dp)))

  unfoldable pub detach_claim : DevPod → Claim → Step W (Unit {0})
  unfolding filter_references
  detach_claim dp claim =
      let (filtered, changed) = filter_references dp claim.metadata.owner_references in
      if not changed then pure tt else must r.cluster (patch_claim (with_references claim filtered))

  -- detachPVC by what the read of the claim gives, and by the persistence that is asked for.
  unfoldable pub detach_read : DevPod → GetResult Claim → Step W (Unit {0})
  unfolding detach_claim
  detach_read dp not_found = pure tt
  detach_read dp (get_failed err) = within (bytes "get pvc") (fail (unread err))
  detach_read dp (found claim) = detach_claim dp claim

  unfoldable pub detach_pvc : DevPod → Step W (Unit {0})
  unfolding detach_read
  detach_pvc dp s =
      if is_none dp.spec.persistence
      then (passed tt, s)
      else (detach_read dp
          (r.cluster.get_claim r.config.dev_pod_namespace (home_pvc_name dp) s.world) s)

  -- cleanupOwnerNetPolIfLast by what the listing gives.
  unfoldable pub cleanup_listed : DevPod → Outcome Text (List DevPod) → Step W (Unit {0})
  cleanup_listed dp (refused err) = within (bytes "list devpods") (fail (unlisted err))
  cleanup_listed dp (passed siblings) =
      if has_live_sibling dp siblings
      then pure tt
      else (within (bytes "delete owner allow netpol") (
          must_or_missing r.cluster
            (delete_policy r.config.dev_pod_namespace (owner_net_pol_name dp.spec.owner))))

  unfoldable pub cleanup_owner_net_pol_if_last : DevPod → Step W (Unit {0})
  unfolding cleanup_listed
  cleanup_owner_net_pol_if_last dp s =
      cleanup_listed dp (r.cluster.list_devpods r.config.dev_pod_namespace s.world) s

  unfoldable pub without_finalizer : DevPod → DevPod
  without_finalizer dp = record dp {
    metadata = record dp.metadata {
      finalizers = r.tools.finalizers.remove devpod_finalizer dp.metadata.finalizers;
    };
  }

  -- The branch of Reconcile for a DevPod that is being deleted.
  unfoldable pub finalize_devpod : DevPod → Step W Requeue
  unfolding detach_pvc cleanup_owner_net_pol_if_last without_finalizer
  finalize_devpod dp = detach_pvc dp >>> λ _. cleanup_owner_net_pol_if_last dp >>> λ _.
      within (bytes "clear finalizer") (must r.cluster (update_devpod (without_finalizer dp)))
      >>> λ _. pure settled
