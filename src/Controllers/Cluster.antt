-- ===== src/Controllers/Cluster.antt =====
-- The API server as the controllers of DevPods and of snapshots use it, and one pass of a controller. What a read returns
-- and what a write does to the world is a parameter; a pass keeps what it wrote, the last write first,
-- after an error too.
pub mod Laws
use devpods.Prelude.{
  ℕ, zero, suc, ◌+◌, ◌-◌, ◌*◌, ◌/◌, ◌%◌, ◌^◌, ◌≤◌, ◌<◌, ◌≡◌, refl, sym, ap, ◌∙◌, subst, ◌≢◌, ◌↔◌,
  ◌⊎◌, inl, inr, Bool, true, false, not, ◌&&◌, ◌||◌, Option, none, some, List, [], ◌∷◌, ◌++◌, map,
  append_assoc, append-nil, arith, ltb, leb, ◌==◌, if◌then◌else◌, ltb→lt, lt→ltb, leb→le, le→leb,
  ==_iff, tests, Bool-cases, Option-cases, and-true, is_none, some-injective, Outcome, refused,
  passed, ◌>>=◌, or_refuse, refuse_if, passed-injective, refused-ne-passed, Outcome-cases,
  >>=-passed, or_refuse-passed, refuse_if-passed, guarded, length, length-append, List-cases, all,
  All, All-append, Text, bytes, text_eq, text_eq_refl, text_eq_iff, Text-cases, text_neq-sym,
  is_empty, has_prefix, contains, itoa, digits, Dict, lookup, insert, remove, lookup-insert,
  lookup-remove,
}
use devpods.Api.Kube.{GetResult, ObjectMeta, PodSpec, Pod}
use devpods.Api.Objects.{Service, Claim, Secret, NetworkPolicy, Job, LiveJob}
use devpods.Api.Snapshots.{DevPodSnapshot}
use devpods.Api.DevPods.{DevPod}
use devpods.Render.Pod.{RenderError}

-- The writes of the controllers; a namespace stands before a name, and `apply` is a server-side apply.
pub data Write : Type 0 where
  update_devpod patch_status : DevPod → Write
  delete_pod delete_policy : Text → Text → Write
  patch_claim apply_claim : Claim → Write
  create_secret : Secret → Write
  apply_pod : ObjectMeta → PodSpec → Write
  apply_service : Service → Write
  apply_policy : NetworkPolicy → Write
  create_job : Job → Write
  update_snapshot patch_snapshot : DevPodSnapshot → Write

-- apierrors.IsNotFound and apierrors.IsAlreadyExists tell the second and the third from the others.
pub data WriteResult : Type 0 where
  accepted missing exists_already : WriteResult
  rejected : Text → WriteResult

-- The reads of one pass see the world as the pass last left it.
pub record Cluster (W : Type 0) : Type 0 where
  pub now : W → ℕ
  pub get_devpod : Text → Text → W → GetResult DevPod
  pub get_pod : Text → Text → W → GetResult Pod
  pub get_claim : Text → Text → W → GetResult Claim
  pub get_secret : Text → Text → W → GetResult Secret
  pub get_snapshot : Text → Text → W → GetResult DevPodSnapshot
  pub get_job : Text → Text → W → GetResult LiveJob
  pub list_pods : Text → Dict Text → W → Outcome Text (List Pod)
  pub list_devpods : Text → W → Outcome Text (List DevPod)
  pub write : Write → W → WriteResult × W

-- The errors, with the texts that the code puts before them.
pub data Failure : Type 0 where
  unread unlisted unkeyed unowned unknown_kind : Text → Failure
  unwritten : WriteResult → Failure
  unrendered : RenderError → Failure
  not_controlled key_missing no_containers_listed : Failure
  in_context : Text → Failure → Failure

pub record Pass (W : Type 0) : Type 0 where
  pub world : W
  pub requeue_after : ℕ
  pub writes : List (Write × WriteResult)

abbrev pub Step : Type 0 → Type 0 → Type 0
Step W A = Pass W → Outcome Failure A × Pass W

module _ {W : Type 0} where
  abbrev pub pure : {A : Type 0} → A → Step W A
  pure a s = (passed a, s)

  abbrev pub fail : {A : Type 0} → Failure → Step W A
  fail e s = (refused e, s)

  -- A result of code that does not touch the world.
  abbrev pub given : {E A : Type 0} → (E → Failure) → Outcome E A → Step W A
  given wrap r s = elim r [ passed a ↦ (passed a, s) | refused e ↦ (refused (wrap e), s) ]

  infixl 5 ◌>>>◌
  abbrev pub ◌>>>◌ : {A B : Type 0} → Step W A → (A → Step W B) → Step W B
  ◌>>>◌ m f s = let (r, t) = m s in elim r [ passed a ↦ f a t | refused e ↦ (refused e, t) ]

  -- fmt.Errorf with a text before the error.
  abbrev pub within : {A : Type 0} → Text → Step W A → Step W A
  within context m s =
      let (r, t) = m s in
      elim r [ passed a ↦ (passed a, t) | refused e ↦ (refused (in_context context e), t) ]

  unfoldable pub perform : Cluster W → Write → Step W WriteResult
  perform cl w s =
      let (r, world) = cl.write w s.world in
      (passed r, record s { world = world; writes = (w, r) ∷ s.writes })

  abbrev pub accept : WriteResult → Step W (Unit {0})
  accept accepted = pure tt
  accept missing = fail (unwritten missing)
  accept exists_already = fail (unwritten exists_already)
  accept (rejected err) = fail (unwritten (rejected err))

  abbrev pub accept_missing : WriteResult → Step W (Unit {0})
  accept_missing accepted = pure tt
  accept_missing missing = pure tt
  accept_missing exists_already = fail (unwritten exists_already)
  accept_missing (rejected err) = fail (unwritten (rejected err))

  -- A write whose every error is one, and a deletion that may find nothing.
  abbrev pub must : Cluster W → Write → Step W (Unit {0})
  must cl w = perform cl w >>> accept

  abbrev pub must_or_missing : Cluster W → Write → Step W (Unit {0})
  must_or_missing cl w = perform cl w >>> accept_missing
