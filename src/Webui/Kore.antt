-- ===== src/Webui/Kore.antt =====
-- internal/webui/kore.go: which annotations bind a DevPod to cores, and the bindings that a template
-- may stamp. strconv.Atoi is a parameter; a quantity counts billionths, and MilliValue rounds up.
pub mod Laws
mod Tests
use devpods.Prelude.{
  ℤ, pos, negsuc, neg, ◌+ℤ◌, ltb_ℤ, eqb_ℤ, is_zero, ℕ, ◌+◌, ◌/◌, ◌%◌, Bool, false, not, ◌&&◌, ◌||◌,
  Option, none, some, List, [], ◌∷◌, ◌++◌, ltb, ◌==◌, if◌then◌else◌, is_none, Text, bytes, text_eq,
  is_empty, has_prefix, Dict, lookup,
}
use devpods.Api.Templates.{BindingSpec}
use devpods.Webui.Quota.{amount, cpu}

abbrev pub kore_prefix : Text
kore_prefix = bytes "kore.zjusct.io/"

abbrev pub ann_pin : Text
ann_pin = kore_prefix ++ bytes "pin"

abbrev pub ann_pool : Text
ann_pool = kore_prefix ++ bytes "pool"

abbrev pub ann_pool_size : Text
ann_pool_size = kore_prefix ++ bytes "pool-size"

-- KoreAnnotationKeys; the order of the keys is left out, since only their number is read.
unfoldable pub kore_annotation_keys : Dict Text → List Text
kore_annotation_keys [] = []
kore_annotation_keys ((k, v) ∷ ann) =
    let rest = kore_annotation_keys ann in if has_prefix kore_prefix k then k ∷ rest else rest

-- allowedBindingValues: the empty list of values stands for nil.
unfoldable pub allowed_values : Dict (List Text)
allowed_values =
    (ann_pin, bytes "true" ∷ [])
    ∷ (ann_pool, [])
    ∷ (ann_pool_size, [])
    ∷ (kore_prefix ++ bytes "numa-policy", bytes "single" ∷ bytes "preferred" ∷ bytes "spread" ∷ [])
    ∷ (kore_prefix ++ bytes "memory-policy", bytes "strict" ∷ bytes "preferred" ∷ [])
    ∷ (kore_prefix ++ bytes "placement", bytes "pack" ∷ bytes "scatter" ∷ [])
    ∷ (kore_prefix ++ bytes "smt-policy", bytes "full-core" ∷ bytes "logical" ∷ [])
    ∷ []

pub data BindingError : Type 0 where
  not_templatable must_not_be_empty not_allowed : Text → BindingError
  pin_and_pool neither_pin_nor_pool no_pool_size bad_pool_size : BindingError
  no_cpu_limit fractional_cpu requests_differ : BindingError

abbrev is_one_of : Text → List Text → Bool
is_one_of v [] = false
is_one_of v (a ∷ rest) = text_eq v a || is_one_of v rest

pub check_value : Text → Text → Option (List Text) → Option BindingError
check_value k v none = some (not_templatable k)
check_value k v (some []) = if is_empty v then some (must_not_be_empty k) else none
check_value k v (some (a ∷ rest)) = if is_one_of v (a ∷ rest) then none else some (not_allowed k)

pub check_annotations : Dict Text → Option BindingError
unfolding check_value
check_annotations [] = none
check_annotations ((k, v) ∷ ann) =
    let rest = check_annotations ann in
    elim (check_value k v (lookup k allowed_values)) [ some e ↦ some e | none ↦ rest ]

pub check_pool : (Text → Option ℕ) → Dict Text → Option BindingError
check_pool atoi ann = elim (lookup ann_pool_size ann) [
  | none ↦ some no_pool_size
  | some size ↦ elim (atoi size) [
    | none ↦ some bad_pool_size
    | some n ↦ if ltb n 1 then some bad_pool_size else none
  ]
]

-- MilliValue, the least number of thousandths that is not below the quantity; quantities whose
-- thousandths pass int64 are left out.
unfoldable pub milli_value : ℤ → ℤ
milli_value (pos n) = pos ((n + 999999) / 1000000)
milli_value (negsuc n) = neg ((n + 1) / 1000000)

-- A remainder of 0, of either sign.
abbrev pub is_multiple : ℕ → ℤ → Bool
is_multiple m (pos n) = n % m == 0
is_multiple m (negsuc n) = (n + 1) % m == 0

pub check_pin : Dict ℤ → Dict ℤ → Option BindingError
unfolding milli_value
check_pin limits requests =
    let limit = amount cpu limits in
    let request = amount cpu requests in
    if is_zero limit
    then some no_cpu_limit
    else if not (is_multiple 1000 (milli_value limit))
    then some fractional_cpu
    else if not (is_zero request) && not (eqb_ℤ request limit)
    then some requests_differ
    else none

abbrev pub first_error : Option BindingError → Option BindingError → Option BindingError
first_error none e = e
first_error (some e) _ = some e

-- ValidateBinding: `none` is the nil error. A size below 1, negative ones included, is what atoi
-- returns as 0.
unfoldable pub validate_binding : (Text → Option ℕ) → BindingSpec → Option BindingError
unfolding check_annotations check_pool check_pin
validate_binding atoi b =
    let pin = not (is_none (lookup ann_pin b.annotations)) in
    let pool = not (is_none (lookup ann_pool b.annotations)) in
    first_error (check_annotations b.annotations) (
      if pin && pool
      then some pin_and_pool
      else if not pin && not pool
      then some neither_pin_nor_pool
      else first_error (if pool then check_pool atoi b.annotations else none)
          (if pin then check_pin b.limits b.requests else none))
