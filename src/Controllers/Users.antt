-- ===== src/Controllers/Users.antt =====
-- internal/controllers/user_controller.go: one reconciliation of a User, up to its write. The
-- finalizers of controller-runtime are a parameter; the count of DevPods wraps around as an int32.
pub mod Deletion
pub mod Settling
mod Tests
use devpods.Prelude.{
  ℕ, zero, suc, ◌+◌, ◌-◌, ◌*◌, ◌/◌, ◌%◌, ◌^◌, ◌≤◌, ◌<◌, ◌≡◌, refl, sym, ap, ◌∙◌, subst, ◌≢◌, ◌↔◌,
  ◌⊎◌, inl, inr, Bool, true, false, not, ◌&&◌, ◌||◌, Option, none, some, List, [], ◌∷◌, ◌++◌, map,
  append_assoc, append-nil, arith, ltb, leb, ◌==◌, if◌then◌else◌, ltb→lt, lt→ltb, leb→le, le→leb,
  ==_iff, tests, Bool-cases, Option-cases, and-true, is_none, some-injective, Outcome, refused,
  passed, ◌>>=◌, or_refuse, refuse_if, passed-injective, refused-ne-passed, Outcome-cases,
  >>=-passed, or_refuse-passed, refuse_if-passed, guarded, length, length-append, List-cases, all,
  All, All-append, Text, bytes, text_eq, text_eq_refl, text_eq_iff, Text-cases, text_neq-sym,
  is_empty, has_prefix, contains, itoa, digits, Dict, lookup, insert, remove, lookup-insert,
  lookup-remove,
}
use devpods.Api.Kube.{GetResult, found, not_found, get_failed, ObjectMeta}
use devpods.Api.DevPods.{DevPod}
use devpods.Api.Users.{User}

-- controllerutil.AddFinalizer, which tells whether it changed the object, and RemoveFinalizer.
pub record FinalizerUtil : Type 0 where
  pub add : Text → List Text → List Text × Bool
  pub remove : Text → List Text → List Text

abbrev pub user_finalizer : Text
user_finalizer = bytes "devpod.io/user-cleanup"

-- What a reconciliation asks for: nothing, to be called again with an error, or a write, after which
-- it may ask to be called again.
pub data UserStep : Type 0 where
  no_write failing : UserStep
  update : User → (requeue : Bool) → UserStep
  status_update : User → UserStep

unfoldable pub owned_count : Text → List DevPod → ℕ
owned_count user [] = 0
owned_count user (dp ∷ dps) =
    let rest = owned_count user dps in
    if text_eq dp.spec.owner user then (rest + 1) % 2 ^ 32 else rest

-- ownedCount > 0, on the pattern of an int32.
unfoldable pub is_positive : ℕ → Bool
is_positive n = ltb 0 n && ltb n (2 ^ 31)

abbrev pub with_finalizers : User → List Text → User
with_finalizers u fs = record u { metadata = record u.metadata { finalizers = fs } }

abbrev pub with_count : User → ℕ → User
with_count u n = record u { status = record u.status { dev_pod_count = n } }

module _ (util : FinalizerUtil) where
  pub reconcile_deleted : User → ℕ → UserStep
  reconcile_deleted u count =
      if is_positive count
      then no_write
      else update (with_finalizers u (util.remove user_finalizer u.metadata.finalizers)) false

  pub reconcile_live : User → ℕ → UserStep
  reconcile_live u count =
      let (fs, added) = util.add user_finalizer u.metadata.finalizers in
      if added
      then update (with_finalizers u fs) true
      else if u.status.dev_pod_count == count
      then no_write
      else status_update (with_count u count)

  unfoldable pub reconcile_user : GetResult User → Option (List DevPod) → UserStep
  unfolding reconcile_deleted reconcile_live
  reconcile_user not_found devpods = no_write
  reconcile_user (get_failed err) devpods = failing
  reconcile_user (found u) none = failing
  reconcile_user (found u) (some devpods) =
      let count = owned_count u.metadata.name devpods in
      elim u.metadata.deletion_timestamp [
        | some t ↦ reconcile_deleted u count
        | none ↦ reconcile_live u count
      ]
