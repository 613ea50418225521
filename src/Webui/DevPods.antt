-- ===== src/Webui/DevPods.antt =====
-- internal/webui/api_devpods.go: what the handlers of /api/devpods ask of the API server. A handler
-- ends in a reply, or in a write whose outcome is the reply. The order in which the source sorts the
-- list of DevPods is left out.
pub mod Ownership
pub mod Allowance
pub mod Creation
pub mod Reachable
mod Tests
use devpods.Prelude.{
  ℕ, zero, suc, ◌+◌, ◌-◌, ◌*◌, ◌/◌, ◌%◌, ◌^◌, ◌≤◌, ◌<◌, ◌≡◌, refl, sym, ap, ◌∙◌, subst, ◌≢◌, ◌↔◌,
  ◌⊎◌, inl, inr, Bool, true, false, not, ◌&&◌, ◌||◌, Option, none, some, List, [], ◌∷◌, ◌++◌, map,
  append_assoc, append-nil, arith, ltb, leb, ◌==◌, if◌then◌else◌, ltb→lt, lt→ltb, leb→le, le→leb,
  ==_iff, tests, Bool-cases, Option-cases, and-true, is_none, some-injective, Outcome, refused,
  passed, ◌>>=◌, or_refuse, refuse_if, passed-injective, refused-ne-passed, Outcome-cases,
  >>=-passed, or_refuse-passed, refuse_if-passed, guarded, length, length-append, List-cases, all,
  All, All-append, Text, bytes, text_eq, text_eq_refl, text_eq_iff, Text-cases, text_neq-sym,
  is_empty, has_prefix, contains, itoa, digits, Dict, lookup, insert, remove, lookup-insert,
  lookup-remove,
}
use devpods.Webui.Requests.{
  Session, CreateRequest, Backend, Refusal, add_limit, workload_of, requested_workload,
  requested_devpod, name_prefix, with_defaults, from_yaml, from_fields, build_devpod, bad_request,
  not_owner, kore_forbidden, quota_exceeded, internal, no_devpod,
}
use devpods.Api.Kube.{GetResult, found, not_found, get_failed, Container, PodSpec, ObjectMeta}
use devpods.Api.DevPods.{DevPod, PersistenceSpec, PodWorkloadSpec, unset}
use devpods.Api.Users.{User, UserQuota}
use devpods.Api.Templates.{DevPodTemplateSpec}
use devpods.Webui.Names.{is_label, max_dev_pod_name_len}
use devpods.Webui.Kore.{kore_annotation_keys}
use devpods.Webui.Template.{apply_template, TemplateError}
use devpods.Webui.Quota.{cpu, memory, effective_quota, require_limits, check_quota}

unfoldable pub owned : Text → List DevPod → List DevPod
owned user [] = []
owned user (dp ∷ dps) =
    let rest = owned user dps in if text_eq dp.spec.owner user then dp ∷ rest else rest

unfoldable pub but_for : Text → List DevPod → List DevPod
but_for name [] = []
but_for name (dp ∷ dps) =
    let rest = but_for name dps in if text_eq dp.metadata.name name then rest else dp ∷ rest

-- getOwned: whoever is neither the owner nor an admin is told that there is no DevPod.
unfoldable pub get_owned : Backend → Session → Text → Outcome Refusal DevPod
get_owned b sess name = elim (b.get_devpod name) [
  | not_found ↦ refused no_devpod
  | get_failed err ↦ refused internal
  | found dp ↦
      if not (text_eq dp.spec.owner sess.user) && not sess.admin
      then refused no_devpod
      else passed dp
]

abbrev pub pod_annotations : Option PodWorkloadSpec → Dict Text
pod_annotations none = []
pod_annotations (some w) = w.metadata.annotations

abbrev pub is_nil {ℓ} : {A : Type ℓ} → List A → Bool
is_nil [] = true
is_nil (_ ∷ _) = false

unfoldable pub reject_kore : Session → DevPod → Outcome Refusal (Unit {0})
reject_kore sess dp =
    refuse_if
      (not sess.admin
        && not (
            is_nil (
              kore_annotation_keys dp.metadata.annotations
              ++ kore_annotation_keys (pod_annotations dp.spec.pod))))
      kore_forbidden

-- Any failed read of the User leaves the defaults.
abbrev pub user_of : GetResult User → Option User
user_of (found u) = some u
user_of not_found = none
user_of (get_failed err) = none

-- checkQuotaFor; the name to leave out is empty for a new DevPod.
unfoldable pub check_quota_for : Backend → Session → DevPod → Text → Outcome Refusal (Unit {0})
check_quota_for b sess proposed exclude = if sess.admin then passed tt else do
  items ← or_refuse b.list_devpods internal
  let quota = effective_quota (user_of (b.get_user sess.user)) b.default_quota
  refuse_if (not (is_nil (check_quota quota (but_for exclude (owned sess.user items)) proposed)))
      quota_exceeded

abbrev pub found_or {ℓ} : {A : Type ℓ} → GetResult A → Refusal → Outcome Refusal A
found_or (found a) e = passed a
found_or not_found e = refused e
found_or (get_failed err) e = refused e

abbrev pub stamped_or : Outcome TemplateError DevPod → Refusal → Outcome Refusal DevPod
stamped_or (passed dp) e = passed dp
stamped_or (refused err) e = refused e

-- The template that the request names, if it names one.
unfoldable pub stamp : Backend → CreateRequest → DevPod → Outcome Refusal DevPod
stamp b req dp = if is_empty req.template_ref then passed dp else do
  tpl ← found_or (b.get_template req.template_ref) bad_request
  _ ← refuse_if (not b.kore_enabled && not (is_none tpl.binding)) bad_request
  stamped_or (apply_template b.atoi dp tpl) bad_request

-- What a user who is no admin may run: a Pod whose containers all have limits.
pub check_workload : Option PodWorkloadSpec → Outcome Refusal (Unit {0})
check_workload none = refused bad_request
check_workload (some w) = refuse_if (not (is_none (require_limits w.spec))) bad_request

unfoldable pub check_metered : Session → DevPod → Outcome Refusal (Unit {0})
unfolding check_workload
check_metered sess dp =
    if sess.admin
    then passed tt
    else do _ ← refuse_if (not (is_none dp.spec.vm)) bad_request; check_workload dp.spec.pod

-- handleCreateDevPod, up to the write: the DevPod that is created.
unfoldable pub create_devpod : Backend → Session → CreateRequest → Outcome Refusal DevPod
create_devpod b sess req = do
  built ← build_devpod b sess req
  _ ← reject_kore sess built
  dp ← stamp b req built
  _ ← check_metered sess dp
  _ ← check_quota_for b sess dp []
  passed dp

abbrev pub same : Bool → Bool → Bool
same true b = b
same false b = not b

-- handlePatchDevPod: the update that is written; `none` is the reply without one.
unfoldable pub patch_devpod :
    Backend → Session → Text → Option Bool → Outcome Refusal (Option DevPod)
patch_devpod b sess name running = do
  dp ← get_owned b sess name
  elim running [
    | none ↦ passed none
    | some wanted ↦
        let changed = record dp { spec = record dp.spec { running = wanted } } in
        if same wanted dp.spec.running then passed none else do
          _ ← (if wanted then check_quota_for b sess changed dp.metadata.name else passed tt)
          passed (some changed)
  ]

-- handleDeleteDevPod: the DevPod that is deleted.
unfoldable pub delete_devpod : Backend → Session → Text → Outcome Refusal DevPod
delete_devpod b sess name = get_owned b sess name
