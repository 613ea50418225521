-- ===== src/Webui/Quota/Sums.antt =====
-- What the sums of the quota are, key by key.
use devpods.Prelude.{
  ℤ, pos, ◌+ℤ◌, +ℤ_assoc, +ℤ_zero, zero_+ℤ, sym, ◌≡◌, refl, ap, ◌∙◌, subst, inl, inr, Bool, true,
  false, Option, none, some, List, [], ◌∷◌, if◌then◌else◌, All, Text, text_eq, Text-cases,
  text_neq-sym, Dict, lookup, insert, lookup-insert,
}
use devpods.Api.Kube.{Container, PodSpec}
use devpods.Api.DevPods.{DevPod, PodWorkloadSpec}
use devpods.Webui.Quota.{
  amount, add_list, add_containers, pod_limits, or_zero, count_one, add_running,
}

-- The keys of a map are distinct.
unfoldable pub Unique {ℓ} : {V : Type ℓ} → Dict V → Type ℓ
Unique [] = Unit
Unique ((k, v) ∷ m) = (lookup k m ≡ none) × Unique m

-- An absent resource counts as zero.
abbrev pub quantity_at : Text → Dict ℤ → ℤ
quantity_at k m = elim (lookup k m) [ none ↦ pos 0 | some n ↦ n ]

abbrev pub total_limit : Text → List Container → ℤ
total_limit k [] = pos 0
total_limit k (c ∷ cs) = quantity_at k c.limits +ℤ total_limit k cs

abbrev pub HaveUnique : List Container → Type 0
HaveUnique cs = All (λ c. Unique c.limits) cs

amount-insert :
    (k j : Text) (n : ℤ) (m : Dict ℤ)
    → amount j (insert k n m) ≡ (if text_eq k j then n else amount j m)
amount-insert k j n m = elim (Text-cases k j) [
  | inl (same, eq) ↦ rw eq (ap or_zero (rw eq at (lookup-insert k j n m)))
  | inr (differ, ne) ↦ rw ne (ap or_zero (rw ne at (lookup-insert k j n m)))
]

lookup-Unique {ℓ} :
    {V : Type ℓ} (k j : Text) (v : V) (m : Dict V)
    → lookup j m ≡ none
    → text_eq k j ≡ false
    → lookup j (insert k v m) ≡ none
lookup-Unique k j v m h ne = rw (lookup-insert k j v m, ne) h

insert-Unique {ℓ} : {V : Type ℓ} (k : Text) (v : V) (m : Dict V) → Unique m → Unique (insert k v m)
unfolding insert Unique lookup
insert-Unique k v [] _ = (refl, tt)
insert-Unique k v ((j, w) ∷ m) (h, u) = elim (Text-cases j k) [
  | inl (same, eq) ↦ rw eq (subst (λ i. lookup i m ≡ none) same h, u)
  | inr (differ, ne) ↦ rw ne (lookup-Unique k j v m h (text_neq-sym j k ne), insert-Unique k v m u)
]

pub add_list-Unique : (sum m : Dict ℤ) → Unique sum → Unique (add_list sum m)
unfolding add_list
add_list-Unique sum [] u = u
add_list-Unique sum ((k, n) ∷ m) u =
    add_list-Unique (insert k (amount k sum +ℤ n) sum) m (insert-Unique k (amount k sum +ℤ n) sum u)

pub amount-add_list :
    (k : Text) (sum m : Dict ℤ) → Unique m → amount k (add_list sum m) ≡ amount k sum +ℤ amount k m
unfolding add_list Unique lookup
amount-add_list k sum [] _ = sym (+ℤ_zero (amount k sum))
amount-add_list k sum ((j, n) ∷ m) (free, u) =
    let step = amount-add_list k (insert j (amount j sum +ℤ n) sum) m u in
    let first = amount-insert j k (amount j sum +ℤ n) sum in
    elim (Text-cases j k) [
      | inl (same, eq) ↦
          let first' = rw eq at first in
          let moved = ap (λ i. amount i sum) same in
          let absent = ap or_zero (subst (λ i. lookup i m ≡ none) same free) in
          rw eq (
            step
            ∙ ap (λ a. a +ℤ amount k m) (first' ∙ ap (λ a. a +ℤ n) moved)
            ∙ +ℤ_assoc (amount k sum) n (amount k m)
            ∙ ap (λ a. amount k sum +ℤ (n +ℤ a)) absent
            ∙ ap (λ a. amount k sum +ℤ a) (+ℤ_zero n))
      | inr (differ, ne) ↦ rw ne (step ∙ ap (λ a. a +ℤ amount k m) (rw ne at first))
    ]

add_containers-Unique :
    (sum : Dict ℤ) (cs : List Container) → Unique sum → Unique (add_containers sum cs)
unfolding add_containers
add_containers-Unique sum [] u = u
add_containers-Unique sum (c ∷ cs) u =
    add_containers-Unique (add_list sum c.limits) cs (add_list-Unique sum c.limits u)

amount-add_containers :
    (k : Text) (sum : Dict ℤ) (cs : List Container)
    → HaveUnique cs
    → amount k (add_containers sum cs) ≡ amount k sum +ℤ total_limit k cs
unfolding add_containers
amount-add_containers k sum [] _ = sym (+ℤ_zero (amount k sum))
amount-add_containers k sum (c ∷ cs) (u, us) =
    let step = amount-add_containers k (add_list sum c.limits) cs us in
    let first = amount-add_list k sum c.limits u in
    step
    ∙ ap (λ a. a +ℤ total_limit k cs) first
    ∙ +ℤ_assoc (amount k sum) (amount k c.limits) (total_limit k cs)

pub pod_limits-Unique : (spec : PodSpec) → Unique (pod_limits spec)
unfolding pod_limits Unique
pod_limits-Unique spec =
    add_containers-Unique (add_containers [] spec.containers) spec.init_containers
      (add_containers-Unique [] spec.containers tt)

-- PodLimits gives each resource the sum of its limits over the containers and the init containers,
-- when no container lists a resource twice.
pub amount-pod_limits :
    (k : Text) (spec : PodSpec)
    → HaveUnique spec.containers
    → HaveUnique spec.init_containers
    → amount k (pod_limits spec)
      ≡ total_limit k spec.containers +ℤ total_limit k spec.init_containers
unfolding pod_limits lookup
amount-pod_limits k spec u v =
    let step = amount-add_containers k (add_containers [] spec.containers) spec.init_containers v in
    let first = amount-add_containers k [] spec.containers u in
    step
    ∙ ap (λ a. a +ℤ total_limit k spec.init_containers)
        (first ∙ zero_+ℤ (total_limit k spec.containers))

-- What a DevPod counts against the limits of compute: nothing unless it runs and is a Pod.
abbrev pub spec_total : Text → PodSpec → ℤ
spec_total k spec = total_limit k spec.containers +ℤ total_limit k spec.init_containers

abbrev workload_total : Text → Option PodWorkloadSpec → ℤ
workload_total k none = pos 0
workload_total k (some w) = spec_total k w.spec

pub compute_of : Text → DevPod → ℤ
compute_of k dp = if dp.spec.running then workload_total k dp.spec.pod else pos 0

pub total_compute : Text → List DevPod → ℤ
total_compute k [] = pos 0
total_compute k (dp ∷ dps) = compute_of k dp +ℤ total_compute k dps

-- The resource lists of a DevPod's containers are maps.
abbrev pub HasUnique : Option PodWorkloadSpec → Type 0
HasUnique none = Unit
HasUnique (some w) = HaveUnique w.spec.containers × HaveUnique w.spec.init_containers

abbrev pub IsMetered : DevPod → Type 0
IsMetered dp = HasUnique dp.spec.pod

-- One more DevPod in the sum, by what it runs.
add_one :
    (k : Text) (used : Dict ℤ) (o : Option PodWorkloadSpec) (running : Bool)
    → HasUnique o
    → amount k (count_one used o running)
      ≡ amount k used +ℤ (if running then workload_total k o else pos 0)
unfolding count_one
add_one k used none true h = sym (+ℤ_zero (amount k used))
add_one k used none false h = sym (+ℤ_zero (amount k used))
add_one k used (some w) false h = sym (+ℤ_zero (amount k used))
add_one k used (some w) true (h, i) =
    let sum = amount-add_list k used (pod_limits w.spec) (pod_limits-Unique w.spec) in
    sum ∙ ap (λ a. amount k used +ℤ a) (amount-pod_limits k w.spec h i)

-- The sum over the DevPods, each of which counts if it runs and is a Pod.
pub amount-add_running :
    (k : Text) (used : Dict ℤ) (dps : List DevPod)
    → All IsMetered dps
    → amount k (add_running used dps) ≡ amount k used +ℤ total_compute k dps
unfolding add_running total_compute compute_of
amount-add_running k used [] _ = sym (+ℤ_zero (amount k used))
amount-add_running k used (dp ∷ dps) (h, hs) =
    let step = amount-add_running k (count_one used dp.spec.pod dp.spec.running) dps hs in
    let first = add_one k used dp.spec.pod dp.spec.running h in
    step
    ∙ ap (λ a. a +ℤ total_compute k dps) first
    ∙ +ℤ_assoc (amount k used) (compute_of k dp) (total_compute k dps)
