-- ===== src/Webui/Quota/Checked.antt =====
-- What the check of the quota accepts.
use devpods.Prelude.{
  ℤ, pos, ◌+ℤ◌, ◌≤ℤ◌, ltb_ℤ, ltb_ℤ-false_iff, zero_+ℤ, ap, refl, Option-cases, ℕ, ◌+◌, ◌^◌, ◌<◌,
  ◌≡◌, refl, sym, ◌∙◌, subst, ◌↔◌, ◌⊎◌, ◌≢◌, some-injective, inl, inr, Bool, true, false, Option,
  none, some, List, [], ◌∷◌, ◌++◌, map, append_assoc, arith, if◌then◌else◌, Bool-cases, length, All,
  Text, Dict, lookup,
}
use devpods.Api.Kube.{PodSpec}
use devpods.Api.DevPods.{DevPod, PodWorkloadSpec}
use devpods.Api.Users.{UserQuota}
use devpods.Webui.Quota.Sums.{
  total_compute, spec_total, quantity_at, IsMetered, HasUnique, amount-add_running,
  amount-pod_limits,
}
use devpods.Webui.Quota.{
  total_storage, running_pod, count_violations, compute_violations, insert_name, sorted_names,
  storage_of, count_exceeds, amount, text_leb, all_compute_violations, storage_violations,
  check_quota, add_running, pod_limits,
}

-- One more DevPod than the existing ones is within the limit.
abbrev pub CountWithin : Option ℤ → List DevPod → Type 0
CountWithin none existing = Unit
CountWithin (some limit) existing = pos (length existing + 1) ≤ℤ limit

-- If the new DevPod is to run a Pod: of each resource that has a limit, the DevPods that run use no more
-- together with it.
abbrev pub ComputeWithin : Option (Dict ℤ) → List DevPod → DevPod → Type 0
ComputeWithin none existing proposed = Unit
ComputeWithin (some limits) existing proposed =
    (w : PodWorkloadSpec)
    → proposed.spec.running ≡ true
    → proposed.spec.pod ≡ some w
    → All (λ k. total_compute k existing +ℤ spec_total k w.spec ≤ℤ quantity_at k limits)
        (map (λ e. e.0) limits)

abbrev pub size_of : DevPod → ℤ
size_of dp = elim dp.spec.persistence [ some p ↦ p.size | none ↦ pos 0 ]

abbrev pub total_size : List DevPod → ℤ
total_size [] = pos 0
total_size (dp ∷ dps) = size_of dp +ℤ total_size dps

-- The storage of all of them, running or not.
abbrev pub StorageWithin : Option ℤ → List DevPod → DevPod → Type 0
StorageWithin none existing proposed = Unit
StorageWithin (some limit) existing proposed = total_size existing +ℤ size_of proposed ≤ℤ limit

pub IsWithin : UserQuota → List DevPod → DevPod → Type 0
IsWithin q existing proposed =
    CountWithin q.max_dev_pods existing
    × ComputeWithin q.compute existing proposed
    × StorageWithin q.storage existing proposed

append-nil_iff {ℓ} : {A : Type ℓ} (xs ys : List A) → ((xs ++ ys) ≡ []) ↔ ((xs ≡ []) × (ys ≡ []))
append-nil_iff [] ys = (λ h. (refl, h), λ h. h.1)
append-nil_iff (x ∷ xs) ys = (λ h. cc, λ (h, k). cc)

-- A list that holds one violation when a test fails is empty when the test succeeds.
guard_iff {ℓ} :
    {A : Type ℓ} (b : Bool) (x : A) (xs : List A)
    → ((if b then x ∷ xs else xs) ≡ []) ↔ ((b ≡ false) × (xs ≡ []))
guard_iff true x xs = (λ h. cc, λ (h, k). cc)
guard_iff false x xs = (λ h. (refl, h), λ h. h.1)

count_exceeds_iff :
    (n : ℕ) (limit : ℤ) → n + 1 < 2 ^ 31 → (count_exceeds n limit ≡ false) ↔ (pos (n + 1) ≤ℤ limit)
unfolding count_exceeds
count_exceeds_iff n limit h = ground arith

count_iff :
    (o : Option ℤ) (existing : List DevPod)
    → length existing + 1 < 2 ^ 31
    → (count_violations o existing ≡ []) ↔ CountWithin o existing
unfolding count_violations
count_iff none existing h = (λ _. tt, λ _. refl)
count_iff (some limit) existing h =
    let (to, from) = count_exceeds_iff (length existing) limit h in
    let (out, back) = guard_iff (count_exceeds (length existing) limit) _ [] in
    (λ e. to (out e).0, λ k. back (from k, refl))

compute_violations_iff :
    (limits used requested : Dict ℤ) (ks : List Text)
    → (compute_violations limits used requested ks ≡ [])
      ↔ All (λ k. amount k used +ℤ amount k requested ≤ℤ amount k limits) ks
unfolding compute_violations
compute_violations_iff limits used requested [] = (λ _. tt, λ _. refl)
compute_violations_iff limits used requested (k ∷ ks) =
    let (to, from) = ltb_ℤ-false_iff (amount k limits) (amount k used +ℤ amount k requested) in
    let (out, back) =
      guard_iff (ltb_ℤ (amount k limits) (amount k used +ℤ amount k requested)) _
        (compute_violations limits used requested ks) in
    let (first, last) = compute_violations_iff limits used requested ks in
    (λ e. (to (out e).0, first (out e).1), λ (h, hs). back (from h, last hs))

All-insert_name {κ} :
    (P : Text → Type κ) (k : Text) (ks : List Text) → All P (insert_name k ks) ↔ (P k × All P ks)
unfolding insert_name
All-insert_name P k [] = (λ h. h, λ h. h)
All-insert_name P k (j ∷ js) =
    let (to, from) = All-insert_name P k js in
    elim (Bool-cases (text_leb k j)) [
      | inl eq ↦ rw eq (λ h. h, λ h. h)
      | inr ne ↦ rw ne (λ (h, hs). ((to hs).0, (h, (to hs).1)), λ (p, (h, hs)). (h, from (p, hs)))
    ]

All-sorted_names {κ} :
    (P : Text → Type κ) (m : Dict ℤ) → All P (sorted_names m) ↔ All P (map (λ e. e.0) m)
unfolding sorted_names
All-sorted_names P [] = (λ h. h, λ h. h)
All-sorted_names P ((k, n) ∷ m) =
    let (to, from) = All-insert_name P k (sorted_names m) in
    let (out, back) = All-sorted_names P m in
    (λ h. ((to h).0, out (to h).1), λ (p, hs). from (p, back hs))

All-sum :
    (limits used requested : Dict ℤ) (existing : List DevPod) (spec : PodSpec) (ks : List Text)
    → ((k : Text) → amount k used ≡ total_compute k existing)
    → ((k : Text) → amount k requested ≡ spec_total k spec)
    → All (λ k. amount k used +ℤ amount k requested ≤ℤ amount k limits) ks
      ≡ All (λ k. total_compute k existing +ℤ spec_total k spec ≤ℤ amount k limits) ks
All-sum limits used requested existing spec [] u r = refl
All-sum limits used requested existing spec (k ∷ ks) u r =
    rw (u k, r k, All-sum limits used requested existing spec ks u r) refl

pod_iff :
    (limits : Dict ℤ) (existing : List DevPod) (w : PodWorkloadSpec)
    → All IsMetered existing
    → HasUnique (some w)
    → (all_compute_violations (some limits) existing (some w) ≡ [])
      ↔ All
          (λ k. total_compute k existing +ℤ spec_total k w.spec ≤ℤ quantity_at k limits)
          (map (λ e. e.0) limits)
unfolding all_compute_violations lookup
pod_iff limits existing w hs (h, i) =
    let used = add_running [] existing in
    let requested = pod_limits w.spec in
    let names = sorted_names limits in
    let (to, from) = compute_violations_iff limits used requested names in
    let sums =
      All-sum limits used requested existing w.spec names
        (λ k. amount-add_running k [] existing hs ∙ zero_+ℤ (total_compute k existing))
        (λ k. amount-pod_limits k w.spec h i) in
    let (out, back) =
      All-sorted_names (λ k. total_compute k existing +ℤ spec_total k w.spec ≤ℤ amount k limits)
        limits in
    (λ e. out (subst (λ X. X) sums (to e)), λ a. from (subst (λ X. X) (sym sums) (back a)))

running_pod_lem :
    (dp : DevPod) (w : PodWorkloadSpec)
    → dp.spec.running ≡ true
    → dp.spec.pod ≡ some w
    → running_pod dp ≡ some w
unfolding running_pod
running_pod_lem dp w runs is_pod = rw (runs, is_pod) refl

idle_pod : (dp : DevPod) → (dp.spec.running ≡ false) ⊎ (dp.spec.pod ≡ none) → running_pod dp ≡ none
unfolding running_pod
idle_pod dp (inl idle) = rw idle refl
idle_pod dp (inr vm) = elim (Bool-cases dp.spec.running) [
  | inl runs ↦ rw (runs, vm) refl
  | inr idle ↦ rw idle refl
]

no_compute :
    (limits : Dict ℤ) (existing : List DevPod)
    → all_compute_violations (some limits) existing none ≡ []
unfolding all_compute_violations
no_compute limits existing = refl

false-ne-true : false ≢ true
false-ne-true h = cc

none-ne-pod : {w : PodWorkloadSpec} → none ≢ some w
none-ne-pod h = cc

idle_iff :
    (limits : Dict ℤ) (existing : List DevPod) (proposed : DevPod)
    → (proposed.spec.running ≡ false) ⊎ (proposed.spec.pod ≡ none)
    → (all_compute_violations (some limits) existing (running_pod proposed) ≡ [])
      ↔ ComputeWithin (some limits) existing proposed
idle_iff limits existing proposed (inl idle) = (
  λ _ w runs p. absurd (false-ne-true (sym idle ∙ runs)),
  λ _. rw (idle_pod proposed (inl idle)) (no_compute limits existing),
)
idle_iff limits existing proposed (inr vm) = (
  λ _ w runs p. absurd (none-ne-pod (sym vm ∙ p)),
  λ _. rw (idle_pod proposed (inr vm)) (no_compute limits existing),
)

unlimited :
    (existing : List DevPod) (p : Option PodWorkloadSpec)
    → all_compute_violations none existing p ≡ []
unfolding all_compute_violations
unlimited existing p = refl

compute_iff :
    (o : Option (Dict ℤ)) (existing : List DevPod) (proposed : DevPod)
    → All IsMetered existing
    → IsMetered proposed
    → (all_compute_violations o existing (running_pod proposed) ≡ [])
      ↔ ComputeWithin o existing proposed
compute_iff none existing proposed hs h = (λ _. tt, λ _. unlimited existing (running_pod proposed))
compute_iff (some limits) existing proposed hs h = elim (Bool-cases proposed.spec.running) [
  | inr idle ↦ idle_iff limits existing proposed (inl idle)
  | inl runs ↦ elim (Option-cases proposed.spec.pod) [
    | inl vm ↦ idle_iff limits existing proposed (inr vm)
    | inr (w, is_pod) ↦
        let (to, from) = pod_iff limits existing w hs (subst HasUnique is_pod h) in
        let same = running_pod_lem proposed w runs is_pod in
        (
          λ e v _ q.
              let eq = some-injective (sym is_pod ∙ q) in
              subst
                (λ x.
                  All (λ k. total_compute k existing +ℤ spec_total k x.spec ≤ℤ quantity_at k limits)
                    (map (λ e. e.0) limits))
                eq (to (subst (λ p. all_compute_violations (some limits) existing p ≡ []) same e)),
          λ a.
              subst (λ p. all_compute_violations (some limits) existing p ≡ []) (sym same)
                (from (a w runs is_pod)),
        )
  ]
]

total_storage_lem : (dps : List DevPod) → total_storage dps ≡ total_size dps
unfolding total_storage storage_of
total_storage_lem [] = refl
total_storage_lem (dp ∷ dps) = ap (λ n. size_of dp +ℤ n) (total_storage_lem dps)

storage_of_lem : (dp : DevPod) → storage_of dp ≡ size_of dp
unfolding storage_of
storage_of_lem dp = refl

storage_iff :
    (o : Option ℤ) (existing : List DevPod) (proposed : DevPod)
    → (storage_violations o existing proposed ≡ []) ↔ StorageWithin o existing proposed
unfolding storage_violations
storage_iff none existing proposed = (λ _. tt, λ _. refl)
storage_iff (some limit) existing proposed =
    let total = total_storage existing +ℤ storage_of proposed in
    let same : total ≡ total_size existing +ℤ size_of proposed =
      rw (total_storage_lem existing, storage_of_lem proposed) refl in
    let (to, from) = ltb_ℤ-false_iff limit total in
    let (out, back) = guard_iff (ltb_ℤ limit total) _ [] in
    (
      λ e. subst (λ n. n ≤ℤ limit) same (to (out e).0),
      λ k. back (from (subst (λ n. n ≤ℤ limit) (sym same) k), refl),
    )

-- The check of the quota accepts a DevPod exactly when, with it, the number of DevPods and the storage of
-- all of them stay within the quota, and, if it is to run as a Pod, also the limits of those that run,
-- resource by resource; where there are fewer than 2 ^ 31 - 1 of them and no container lists a resource
-- twice. Quantities are signed: a negative one lowers a sum.
pub check_quota_iff :
    (q : UserQuota) (existing : List DevPod) (proposed : DevPod)
    → length existing + 1 < 2 ^ 31
    → All IsMetered existing
    → IsMetered proposed
    → (check_quota q existing proposed ≡ []) ↔ IsWithin q existing proposed
unfolding check_quota IsWithin
check_quota_iff q existing proposed few hs h =
    let count = count_violations q.max_dev_pods existing in
    let compute = all_compute_violations q.compute existing (running_pod proposed) in
    let storage = storage_violations q.storage existing proposed in
    let (out, back) = append-nil_iff count (compute ++ storage) in
    let (out', back') = append-nil_iff compute storage in
    let (a, a') = count_iff q.max_dev_pods existing few in
    let (b, b') = compute_iff q.compute existing proposed hs h in
    let (c, c') = storage_iff q.storage existing proposed in
    let same = append_assoc count compute storage in
    (
      λ e. let (x, rest) = out (sym same ∙ e) in let (y, z) = out' rest in (a x, b y, c z),
      λ (x, y, z). same ∙ back (a' x, back' (b' y, c' z)),
    )
