-- ===== src/Webui/Quota.antt =====
-- internal/webui/quota.go. A quantity is a count of billionths, the smallest unit of
-- resource.Quantity, and may be negative; its sums do not overflow, since it goes on in arbitrary
-- precision. A violation keeps the
-- quantities that the source prints into it.
pub mod Sums
pub mod Checked
mod Tests
use devpods.Prelude.{
  ℤ, pos, negsuc, ◌+ℤ◌, ltb_ℤ, eqb_ℤ, is_zero, ℕ, zero, suc, ◌+◌, ◌-◌, ◌*◌, ◌/◌, ◌%◌, ◌^◌, ◌≤◌, ◌<◌,
  ◌≡◌, refl, sym, ap, ◌∙◌, subst, ◌≢◌, ◌↔◌, ◌⊎◌, inl, inr, Bool, true, false, not, ◌&&◌, ◌||◌,
  Option, none, some, List, [], ◌∷◌, ◌++◌, map, append_assoc, append-nil, arith, ltb, leb, ◌==◌,
  if◌then◌else◌, ltb→lt, lt→ltb, leb→le, le→leb, ==_iff, tests, Bool-cases, Option-cases, and-true,
  is_none, some-injective, length, length-append, List-cases, all, All, All-append, Text, bytes,
  text_eq, text_eq_refl, text_eq_iff, Text-cases, is_empty, has_prefix, contains, itoa, digits,
  Dict, lookup, insert, remove, lookup-insert, lookup-remove,
}
use devpods.Api.Kube.{Container, PodSpec}
use devpods.Api.DevPods.{DevPod, PodWorkloadSpec, PersistenceSpec}
use devpods.Api.Users.{User, UserQuota}

pub record QuotaViolation : Type 0 where
  pub resource : Text
  pub requested : ℤ
  pub used : ℤ
  pub limit : ℤ

-- A field that is set takes the place of the default.
abbrev or_else {ℓ} : {A : Type ℓ} → Option A → Option A → Option A
or_else none d = d
or_else (some a) d = some a

unfoldable pub override : UserQuota → Option UserQuota → UserQuota
override def none = def
override def (some q) = record {
  max_dev_pods = or_else q.max_dev_pods def.max_dev_pods;
  compute = or_else q.compute def.compute;
  storage = or_else q.storage def.storage;
}

unfoldable pub effective_quota : Option User → UserQuota → UserQuota
unfolding override
effective_quota none def = def
effective_quota (some u) def = override def u.spec.quota

-- An absent key of a resource list reads as the zero quantity.
abbrev pub or_zero : Option ℤ → ℤ
or_zero none = pos 0
or_zero (some n) = n

abbrev pub amount : Text → Dict ℤ → ℤ
amount k m = or_zero (lookup k m)

-- The loop `sum[name] += qty` over a resource list.
unfoldable pub add_list : Dict ℤ → Dict ℤ → Dict ℤ
add_list sum [] = sum
add_list sum ((k, n) ∷ m) = add_list (insert k (amount k sum +ℤ n) sum) m

unfoldable pub add_containers : Dict ℤ → List Container → Dict ℤ
add_containers sum [] = sum
add_containers sum (c ∷ cs) = add_containers (add_list sum c.limits) cs

unfoldable pub pod_limits : PodSpec → Dict ℤ
pod_limits spec = add_containers (add_containers [] spec.containers) spec.init_containers

abbrev pub cpu : Text
cpu = bytes "cpu"

abbrev pub memory : Text
memory = bytes "memory"

-- The name of the first container that declares no cpu or no memory limit.
unfoldable pub first_without_limits : List Container → Option Text
first_without_limits [] = none
first_without_limits (c ∷ cs) =
    if is_zero (amount cpu c.limits) || is_zero (amount memory c.limits)
    then some c.name
    else first_without_limits cs

-- The kind of container that RequireLimits complains of, and its name; `none` is success.
unfoldable pub require_limits : PodSpec → Option (Text × Text)
require_limits spec = elim (first_without_limits spec.containers) [
  | some n ↦ some (bytes "container", n)
  | none ↦ elim (first_without_limits spec.init_containers) [
    | some n ↦ some (bytes "initContainer", n)
    | none ↦ none
  ]
]

-- sort.Strings on the names of the limits.
abbrev pub text_leb : Text → Text → Bool
text_leb [] t = true
text_leb (a ∷ s) [] = false
text_leb (a ∷ s) (b ∷ t) = ltb a b || (a == b && text_leb s t)

pub insert_name : Text → List Text → List Text
insert_name k [] = k ∷ []
insert_name k (j ∷ js) =
    let rest = insert_name k js in if text_leb k j then k ∷ j ∷ js else j ∷ rest

unfoldable pub sorted_names : Dict ℤ → List Text
unfolding insert_name
sorted_names [] = []
sorted_names ((k, n) ∷ m) = insert_name k (sorted_names m)

-- The body of the loop over the other DevPods.
unfoldable pub count_one : Dict ℤ → Option PodWorkloadSpec → Bool → Dict ℤ
count_one used none running = used
count_one used (some w) running = if running then add_list used (pod_limits w.spec) else used

unfoldable pub add_running : Dict ℤ → List DevPod → Dict ℤ
add_running used [] = used
add_running used (dp ∷ dps) = add_running (count_one used dp.spec.pod dp.spec.running) dps

unfoldable pub compute_violations : Dict ℤ → Dict ℤ → Dict ℤ → List Text → List QuotaViolation
compute_violations limits used requested [] = []
compute_violations limits used requested (k ∷ ks) =
    let rest = compute_violations limits used requested ks in
    if ltb_ℤ (amount k limits) (amount k used +ℤ amount k requested)
    then record {
      resource = k;
      requested = amount k requested;
      used = amount k used;
      limit = amount k limits;
    }
      ∷ rest
    else rest

unfoldable pub storage_of : DevPod → ℤ
storage_of dp = elim dp.spec.persistence [ none ↦ pos 0 | some p ↦ p.size ]

unfoldable pub total_storage : List DevPod → ℤ
total_storage [] = pos 0
total_storage (dp ∷ dps) = storage_of dp +ℤ total_storage dps

-- The pattern of an int32 as a number.
abbrev pub int32 : ℕ → ℤ
int32 n = if ltb n (2 ^ 31) then pos n else negsuc (2 ^ 32 - n - 1)

-- int32(len(existing))+1 is more than the limit; the sum wraps around.
unfoldable pub count_exceeds : ℕ → ℤ → Bool
count_exceeds existing limit = ltb_ℤ limit (int32 ((existing + 1) % 2 ^ 32))

unfoldable pub count_violations : Option ℤ → List DevPod → List QuotaViolation
count_violations none existing = []
count_violations (some limit) existing =
    if count_exceeds (length existing) limit
    then record {
      resource = bytes "devpods";
      requested = pos 1;
      used = pos (length existing);
      limit = limit;
    }
      ∷ []
    else []

-- Only a Pod that runs is counted against the limits of compute.
unfoldable pub running_pod : DevPod → Option PodWorkloadSpec
running_pod dp = if dp.spec.running then dp.spec.pod else none

unfoldable pub all_compute_violations :
    Option (Dict ℤ) → List DevPod → Option PodWorkloadSpec → List QuotaViolation
all_compute_violations none existing proposed = []
all_compute_violations (some limits) existing none = []
all_compute_violations (some limits) existing (some w) =
    compute_violations limits (add_running [] existing) (pod_limits w.spec) (sorted_names limits)

unfoldable pub storage_violations : Option ℤ → List DevPod → DevPod → List QuotaViolation
storage_violations none existing proposed = []
storage_violations (some limit) existing proposed =
    if ltb_ℤ limit (total_storage existing +ℤ storage_of proposed)
    then record {
      resource = bytes "storage";
      requested = storage_of proposed;
      used = total_storage existing;
      limit = limit;
    }
      ∷ []
    else []

-- CheckQuota: no violation is the nil error.
unfoldable pub check_quota : UserQuota → List DevPod → DevPod → List QuotaViolation
check_quota q existing proposed =
    count_violations q.max_dev_pods existing
    ++ all_compute_violations q.compute existing (running_pod proposed)
    ++ storage_violations q.storage existing proposed
