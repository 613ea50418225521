-- ===== src/Webui/DevPods/Allowance.antt =====
-- What the checks of limits and of the quota mean for one user's DevPods.
use devpods.Prelude.{
  ℤ, pos, is_zero, eqb_ℤ_iff, ◌+◌, ◌^◌, ◌≤◌, ◌<◌, ◌≡◌, refl, sym, ap, ◌∙◌, ◌≢◌, inl, inr, Bool,
  true, false, not, ◌&&◌, ◌||◌, Option, none, some, List, [], ◌∷◌, arith, if◌then◌else◌, Bool-cases,
  Option-cases, passed, or_refuse, >>=-passed, or_refuse-passed, refuse_if-passed, length, All,
  Text, bytes, text_eq, Dict, lookup,
}
use devpods.Api.Kube.{GetResult, found, not_found, get_failed, Container, PodSpec}
use devpods.Api.DevPods.{DevPod}
use devpods.Api.Users.{User, UserQuota}
use devpods.Webui.Requests.{Session, Backend, internal, quota_exceeded}
use devpods.Webui.DevPods.{owned, but_for, check_quota_for, is_nil, user_of}
use devpods.Webui.Quota.{
  first_without_limits, require_limits, check_quota, effective_quota, override, amount, cpu, memory,
}
use devpods.Webui.Quota.Sums.{IsMetered}
use devpods.Webui.Quota.Checked.{IsWithin, check_quota_iff}

-- The DevPods of a user but for the one of a name.
abbrev pub others : Text → Text → List DevPod → List DevPod
others user name [] = []
others user name (dp ∷ dps) =
    let rest = others user name dps in
    if text_eq dp.spec.owner user && not (text_eq dp.metadata.name name) then dp ∷ rest else rest

others_lem :
    (user name : Text) (dps : List DevPod) → but_for name (owned user dps) ≡ others user name dps
unfolding owned but_for
others_lem user name [] = refl
others_lem user name (dp ∷ dps) =
    let rest = others_lem user name dps in
    elim (Bool-cases (text_eq dp.spec.owner user)) [
      | inr other ↦ rw other rest
      | inl own ↦ elim (Bool-cases (text_eq dp.metadata.name name)) [
        | inl same ↦ rw (own, same) rest
        | inr differ ↦ rw (own, differ) (ap (λ l. dp ∷ l) rest)
      ]
    ]

-- The limits and the count of the list carry over to its parts.
others-All :
    (P : DevPod → Type 0) (user name : Text) (dps : List DevPod)
    → All P dps
    → All P (others user name dps)
others-All P user name [] h = tt
others-All P user name (dp ∷ dps) (h, hs) =
    elim (Bool-cases (text_eq dp.spec.owner user && not (text_eq dp.metadata.name name))) [
      | inl kept ↦ rw kept (h, others-All P user name dps hs)
      | inr left ↦ rw left (others-All P user name dps hs)
    ]

length-others : (user name : Text) (dps : List DevPod) → length (others user name dps) ≤ length dps
length-others user name [] = omega arith
length-others user name (dp ∷ dps) =
    let rest = length-others user name dps in
    elim (Bool-cases (text_eq dp.spec.owner user && not (text_eq dp.metadata.name name))) [
      | inl kept ↦ rw kept (omega (arith, rest))
      | inr left ↦ rw left (omega (arith, rest))
    ]

-- What is set in the quota of a user, and the default of the rest.
abbrev either {ℓ} : {A : Type ℓ} → Option A → Option A → Option A
either mine def = elim mine [ some a ↦ some a | none ↦ def ]

abbrev with_defaults_of : Option UserQuota → UserQuota → UserQuota
with_defaults_of none def = def
with_defaults_of (some q) def = record {
  max_dev_pods = either q.max_dev_pods def.max_dev_pods;
  compute = either q.compute def.compute;
  storage = either q.storage def.storage;
}

-- The quota by what is read of the User; without a User it is the default.
abbrev pub quota_of : GetResult User → UserQuota → UserQuota
quota_of (found u) def = with_defaults_of u.spec.quota def
quota_of not_found def = def
quota_of (get_failed err) def = def

or_else_lem : (q def : UserQuota) → override def (some q) ≡ with_defaults_of (some q) def
unfolding override
or_else_lem q def = ground arith

quota_of_lem :
    (got : GetResult User) (def : UserQuota) → effective_quota (user_of got) def ≡ quota_of got def
unfolding effective_quota override
quota_of_lem (found u) def = elim (Option-cases u.spec.quota) [
  | inl e ↦ rw e refl
  | inr (q, e) ↦ rw e (or_else_lem q def)
]
quota_of_lem not_found def = refl
quota_of_lem (get_failed err) def = refl

-- The sums are those of maps, and the count is that of an int32.
abbrev pub AreCountable : List DevPod → Type 0
AreCountable items = (length items + 1 < 2 ^ 31) × All IsMetered items

pub nil-not : {A : Type 0} (xs : List A) → not (is_nil xs) ≡ false → xs ≡ []
nil-not [] h = refl
nil-not (x ∷ xs) h = cc

-- The check of the quota passes: with the DevPod, the user's others are within the user's quota.
pub check_quota_for-IsWithin :
    (b : Backend) (sess : Session) (dp : DevPod) (exclude : Text)
    → sess.admin ≡ false
    → IsMetered dp
    → ((items : List DevPod) → b.list_devpods ≡ some items → AreCountable items)
    → check_quota_for b sess dp exclude ≡ passed tt
    → (items : List DevPod) × (b.list_devpods ≡ some items)
      × IsWithin
          (quota_of (b.get_user sess.user) b.default_quota)
          (others sess.user exclude items)
          dp
unfolding check_quota_for
check_quota_for-IsWithin b sess dp exclude plain metered countable h =
    let (items, e, rest) =
      >>=-passed (or_refuse b.list_devpods internal) _ (rw (check_quota_for, plain) at h) in
    let listed = or_refuse-passed b.list_devpods internal e in
    let (few, maps) = countable items listed in
    let quota = quota_of (b.get_user sess.user) b.default_quota in
    let mine = others sess.user exclude items in
    let bound = length-others sess.user exclude items in
    let clean = nil-not _ (refuse_if-passed _ quota_exceeded rest) in
    let same =
      ap (λ q. check_quota q (but_for exclude (owned sess.user items)) dp)
        (quota_of_lem (b.get_user sess.user) b.default_quota)
      ∙ ap (λ l. check_quota quota l dp) (others_lem sess.user exclude items) in
    (
      items,
      listed,
      (check_quota_iff quota mine dp (omega (arith, few, bound))
            (others-All IsMetered sess.user exclude items maps) metered).0
          (sym same ∙ clean),
    )

-- A limit of a resource that is not zero.
abbrev pub Limits : Text → Dict ℤ → Type 0
Limits k limits = (q : ℤ) × (lookup k limits ≡ some q) × (q ≢ pos 0)

abbrev pub HaveLimits : List Container → Type 0
HaveLimits cs = All (λ c. Limits (bytes "cpu") c.limits × Limits (bytes "memory") c.limits) cs

true-ne-false : true ≢ false
true-ne-false h = cc

amount-Limits : (k : Text) (m : Dict ℤ) → is_zero (amount k m) ≡ false → Limits k m
amount-Limits k m h = elim (Option-cases (lookup k m)) [
  | inl e ↦ absurd (true-ne-false (rw e at h))
  | inr (q, e) ↦ (q, e, λ z. true-ne-false (sym ((eqb_ℤ_iff q (pos 0)).1 z) ∙ rw e at h))
]

neither : (a b : Bool) → (a || b) ≡ false → (a ≡ false) × (b ≡ false)
neither a b h = ground arith

some-ne-none {ℓ} : {A : Type ℓ} {a : A} → some a ≢ none
some-ne-none h = cc

first_without_limits-none : (cs : List Container) → first_without_limits cs ≡ none → HaveLimits cs
unfolding first_without_limits
first_without_limits-none [] h = tt
first_without_limits-none (c ∷ cs) h =
    elim (Bool-cases (is_zero (amount cpu c.limits) || is_zero (amount memory c.limits))) [
      | inl lacks ↦ absurd (some-ne-none (rw lacks at h))
      | inr has ↦
          let (a, b) = neither _ _ has in
          (
            (amount-Limits cpu c.limits a, amount-Limits memory c.limits b),
            first_without_limits-none cs (rw has at h),
          )
    ]

pub require_limits-none :
    (spec : PodSpec)
    → require_limits spec ≡ none
    → HaveLimits spec.containers × HaveLimits spec.init_containers
unfolding require_limits
require_limits-none spec h = elim (Option-cases (first_without_limits spec.containers)) [
  | inr (n, e) ↦ absurd (some-ne-none (rw (require_limits, e) at h))
  | inl e ↦ elim (Option-cases (first_without_limits spec.init_containers)) [
    | inr (n, k) ↦ absurd (some-ne-none (rw (require_limits, e, k) at h))
    | inl k ↦ (
      first_without_limits-none spec.containers e,
      first_without_limits-none spec.init_containers k,
    )
  ]
]
