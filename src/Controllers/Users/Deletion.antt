-- ===== src/Controllers/Users/Deletion.antt =====
-- When the finalizer of a User is removed.
use devpods.Prelude.{
  none, ap, ◌∙◌, bytes, true, refl, ◌⊎◌, ◌↔◌, ℕ, ◌+◌, ◌%◌, ◌^◌, ◌≤◌, ◌<◌, ◌≡◌, ◌≢◌, inl, inr, false,
  ◌&&◌, some, List, [], ◌∷◌, arith, ltb, Bool-cases, length, All, Text, Text-cases,
}
use devpods.Api.Kube.{found}
use devpods.Api.DevPods.{DevPod}
use devpods.Api.Users.{User}
use devpods.Controllers.Users.{
  FinalizerUtil, user_finalizer, no_write, update, owned_count, is_positive, with_finalizers,
  reconcile_deleted, reconcile_live, reconcile_user,
}

abbrev pub IsUnowned : Text → List DevPod → Type 0
IsUnowned user dps = All (λ dp. dp.spec.owner ≢ user) dps

small_mod : (n : ℕ) → n < 2 ^ 31 → (n + 1) % 2 ^ 32 ≡ n + 1
small_mod n h = omega (arith, h)

positive_count : (n : ℕ) → n < 2 ^ 31 → (ltb 0 n && ltb n (2 ^ 31)) ≡ true → n ≢ 0
positive_count n h k z = ground arith

zero_count : (n : ℕ) → n < 2 ^ 31 → (ltb 0 n && ltb n (2 ^ 31)) ≡ false → n ≡ 0
zero_count n h k = ground arith

suc-ne-zero : (n : ℕ) → n + 1 ≢ 0
suc-ne-zero n h = omega (arith, h)

owned_count-zero :
    (user : Text) (dps : List DevPod)
    → length dps < 2 ^ 31
    → (owned_count user dps ≤ length dps) × ((owned_count user dps ≡ 0) ↔ IsUnowned user dps)
unfolding owned_count
owned_count-zero user [] few = (omega arith, (λ _. tt, λ _. refl))
owned_count-zero user (dp ∷ dps) few =
    let (bound, rest) = owned_count-zero user dps (omega (arith, few)) in
    elim (Text-cases dp.spec.owner user) [
      | inl (same, eq) ↦
          let step = small_mod (owned_count user dps) (omega (arith, few, bound)) in
          rw (eq, step)
            (
              omega (arith, bound),
              (λ z. absurd (suc-ne-zero (owned_count user dps) z), λ (ne, _). absurd (ne same)),
            )
      | inr (differ, ne) ↦
          rw ne (omega (arith, bound), (λ z. (differ, rest.0 z), λ (_, hs). rest.1 hs))
    ]

deleted_step :
    (util : FinalizerUtil) (u : User) (devpods : List DevPod) (t : ℕ)
    → u.metadata.deletion_timestamp ≡ some t
    → reconcile_user util (found u) (some devpods)
      ≡ reconcile_deleted util u (owned_count u.metadata.name devpods)
unfolding reconcile_user
deleted_step util u devpods t deleted =
    ap
      (λ o. elim o [
        | some t ↦ reconcile_deleted util u (owned_count u.metadata.name devpods)
        | none ↦ reconcile_live util u (owned_count u.metadata.name devpods)
      ])
      deleted

held_step :
    (util : FinalizerUtil) (u : User) (n : ℕ)
    → is_positive n ≡ true
    → reconcile_deleted util u n ≡ no_write
unfolding reconcile_deleted
held_step util u n h = rw h refl

freed_step :
    (util : FinalizerUtil) (u : User) (n : ℕ)
    → is_positive n ≡ false
    → reconcile_deleted util u n
      ≡ update (with_finalizers u (util.remove user_finalizer u.metadata.finalizers)) false
unfolding reconcile_deleted
freed_step util u n h = rw h refl

-- Of a User that is being deleted nothing is written, not even the status, as long as there is a DevPod
-- that the user owns; and when there is none, the finalizers that RemoveFinalizer leaves for
-- "devpod.io/user-cleanup" are written. This is for fewer than 2 ^ 31 DevPods.
pub reconcile_user-IsUnowned :
    (util : FinalizerUtil) (u : User) (devpods : List DevPod) (t : ℕ)
    → u.metadata.deletion_timestamp ≡ some t
    → length devpods < 2 ^ 31
    → (IsUnowned u.metadata.name devpods
        × (reconcile_user util (found u) (some devpods)
            ≡ update
                (record u {
                  metadata = record u.metadata {
                    finalizers = util.remove (bytes "devpod.io/user-cleanup") u.metadata.finalizers;
                  };
                })
                false))
      ⊎ (¬ IsUnowned u.metadata.name devpods
          × (reconcile_user util (found u) (some devpods) ≡ no_write))
unfolding is_positive
reconcile_user-IsUnowned util u devpods t deleted few =
    let count = owned_count u.metadata.name devpods in
    let (bound, (none_left, no_count)) = owned_count-zero u.metadata.name devpods few in
    let step = deleted_step util u devpods t deleted in
    elim (Bool-cases (is_positive count)) [
      | inl some_left ↦ inr (
        λ free. positive_count count (omega (arith, bound, few)) some_left (no_count free),
        step ∙ held_step util u count some_left,
      )
      | inr free ↦ inl (
        none_left (zero_count count (omega (arith, bound, few)) free),
        step ∙ freed_step util u count free,
      )
    ]
