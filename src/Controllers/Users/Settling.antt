-- ===== src/Controllers/Users/Settling.antt =====
-- Where the reconciliations of a User end.
use devpods.Prelude.{
  ◌+◌, ◌%◌, ◌^◌, arith, bytes, ℕ, ◌≡◌, refl, sym, ap, ◌∙◌, subst, inl, inr, Bool, true, false, ◌||◌,
  none, some, List, [], ◌∷◌, ◌==◌, if◌then◌else◌, ==_iff, Bool-cases, Text, text_eq,
}
use devpods.Api.Kube.{found}
use devpods.Api.DevPods.{DevPod}
use devpods.Api.Users.{User}
use devpods.Controllers.Users.{
  FinalizerUtil, user_finalizer, UserStep, no_write, failing, update, status_update, owned_count,
  with_finalizers, with_count, reconcile_deleted, reconcile_live, reconcile_user,
}

-- The User after a step whose write succeeds.
pub after : User → UserStep → User
after u no_write = u
after u failing = u
after u (update v requeue) = v
after u (status_update v) = v

abbrev pub is_member : Text → List Text → Bool
is_member f [] = false
is_member f (g ∷ gs) = text_eq g f || is_member f gs

-- What the controller relies on of AddFinalizer: it adds a finalizer that is missing, tells that it did,
-- and leaves one that is there.
pub record Adds (util : FinalizerUtil) : Type 0 where
  pub there : (f : Text) (fs : List Text) → is_member f fs ≡ true → util.add f fs ≡ (fs, false)
  pub missing :
      (f : Text) (fs : List Text)
      → is_member f fs ≡ false
      → ((util.add f fs).1 ≡ true) × (is_member f (util.add f fs).0 ≡ true)

-- How many DevPods a user owns.
abbrev pub number_of : Text → List DevPod → ℕ
number_of user [] = 0
number_of user (dp ∷ dps) =
    let rest = number_of user dps in if text_eq dp.spec.owner user then rest + 1 else rest

next_int32 : (n : ℕ) → (n % 2 ^ 32 + 1) % 2 ^ 32 ≡ (n + 1) % 2 ^ 32
next_int32 n = omega arith

owned_count_lem :
    (user : Text) (dps : List DevPod) → owned_count user dps ≡ number_of user dps % 2 ^ 32
unfolding owned_count
owned_count_lem user [] = refl
owned_count_lem user (dp ∷ dps) =
    let rest = owned_count_lem user dps in
    elim (Bool-cases (text_eq dp.spec.owner user)) [
      | inl own ↦ rw own (ap (λ n. (n + 1) % 2 ^ 32) rest ∙ next_int32 (number_of user dps))
      | inr other ↦ rw other rest
    ]

module _ (util : FinalizerUtil) (devpods : List DevPod) where
  -- One reconciliation whose write succeeds.
  pub step : User → User
  step u = after u (reconcile_user util (found u) (some devpods))

  -- The User has the finalizer and the right count, and a reconciliation asks for nothing.
  abbrev pub IsSettled : User → Type 0
  IsSettled u =
      (is_member (bytes "devpod.io/user-cleanup") u.metadata.finalizers ≡ true)
      × (u.status.dev_pod_count ≡ number_of u.metadata.name devpods % 2 ^ 32)
      × (reconcile_user util (found u) (some devpods) ≡ no_write)

  live_step :
      (u : User)
      → u.metadata.deletion_timestamp ≡ none
      → reconcile_user util (found u) (some devpods)
        ≡ reconcile_live util u (owned_count u.metadata.name devpods)
  unfolding reconcile_user
  live_step u live =
      ap
        (λ o. elim o [
          | some t ↦ reconcile_deleted util u (owned_count u.metadata.name devpods)
          | none ↦ reconcile_live util u (owned_count u.metadata.name devpods)
        ])
        live

  counted :
      (u : User) (count : ℕ)
      → util.add user_finalizer u.metadata.finalizers ≡ (u.metadata.finalizers, false)
      → reconcile_live util u count
        ≡ (if u.status.dev_pod_count == count then no_write else status_update (with_count u count))
  unfolding reconcile_live
  counted u count e = rw (reconcile_live, e) refl

  idle :
      (u : User)
      → Adds util
      → u.metadata.deletion_timestamp ≡ none
      → is_member user_finalizer u.metadata.finalizers ≡ true
      → u.status.dev_pod_count ≡ owned_count u.metadata.name devpods
      → reconcile_user util (found u) (some devpods) ≡ no_write
  idle u adds live has right =
      live_step u live
      ∙ counted u (owned_count u.metadata.name devpods) (adds.there _ _ has)
      ∙ ap
          (λ b.
            if b
            then no_write
            else status_update (with_count u (owned_count u.metadata.name devpods)))
          ((==_iff _ _).1 right)

  step-IsSettled :
      (u : User)
      → Adds util
      → u.metadata.deletion_timestamp ≡ none
      → is_member user_finalizer u.metadata.finalizers ≡ true
      → IsSettled (step u)
  unfolding step after
  step-IsSettled u adds live has =
      let count = owned_count u.metadata.name devpods in
      let asked = live_step u live ∙ counted u count (adds.there _ _ has) in
      elim (Bool-cases (u.status.dev_pod_count == count)) [
        | inl right ↦
            let same : step u ≡ u = ap (after u) (rw right at asked) in
            let eq = (==_iff _ _).0 right in
            subst IsSettled (sym same)
              (has, eq ∙ owned_count_lem u.metadata.name devpods, idle u adds live has eq)
        | inr wrong ↦
            let made : step u ≡ with_count u count = ap (after u) (rw wrong at asked) in
            subst IsSettled (sym made) (
              has,
              owned_count_lem u.metadata.name devpods,
              idle (with_count u count) adds live has refl,
            )
      ]

  first_step :
      (u : User)
      → Adds util
      → u.metadata.deletion_timestamp ≡ none
      → is_member user_finalizer u.metadata.finalizers ≡ false
      → step u ≡ with_finalizers u (util.add user_finalizer u.metadata.finalizers).0
  unfolding step after reconcile_live
  first_step u adds live lacks =
      let asked = live_step u live in
      ap (after u) (rw (reconcile_live, (adds.missing _ _ lacks).0) at asked)

  -- A User that is not being deleted, while the DevPods stay the same, is settled after two
  -- reconciliations whose writes succeed: it has the finalizer, its count is the number of its DevPods,
  -- as an int32, and a third reconciliation writes nothing.
  pub reconcile_user-IsSettled :
      (u : User) → Adds util → u.metadata.deletion_timestamp ≡ none → IsSettled (step (step u))
  unfolding step after
  reconcile_user-IsSettled u adds live =
      elim (Bool-cases (is_member user_finalizer u.metadata.finalizers)) [
        | inr lacks ↦
            let fs = (util.add user_finalizer u.metadata.finalizers).0 in
            let made = first_step u adds live lacks in
            subst (λ v. IsSettled (step v)) (sym made)
              (step-IsSettled (with_finalizers u fs) adds live (adds.missing _ _ lacks).1)
        | inl has ↦
            let settled = step-IsSettled u adds live has in
            let same : step (step u) ≡ step u = ap (after (step u)) settled.2 in
            subst IsSettled (sym same) settled
      ]
