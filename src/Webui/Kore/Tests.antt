-- ===== src/Webui/Kore/Tests.antt =====
-- A binding to a pool, and an instance of the theorem.
use devpods.Prelude.{pos, negsuc, none, ◌≡◌, refl, [], ◌∷◌, bytes, text_eq, lookup}
use devpods.Api.Templates.{BindingSpec}
use devpods.Webui.Kore.{ann_pool, ann_pool_size, check_pin, milli_value}

abbrev pooled : BindingSpec
pooled = record {
  annotations = (ann_pool, bytes "shared") ∷ (ann_pool_size, bytes "4") ∷ [];
  limits = [];
  requests = [];
}

-- 1.9999 cpus are rounded up to 2 by MilliValue, and accepted.
nearly_two : check_pin ((bytes "cpu", pos 1999900000) ∷ []) [] ≡ none
unfolding check_pin milli_value text_eq lookup
nearly_two = refl

-- So is a negative number of cpus.
minus_one : check_pin ((bytes "cpu", negsuc 999999999) ∷ []) [] ≡ none
unfolding check_pin milli_value text_eq lookup
minus_one = refl
