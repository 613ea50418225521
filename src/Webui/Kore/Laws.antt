-- ===== src/Webui/Kore/Laws.antt =====
-- What a binding that passes the validation is like.
use devpods.Prelude.{
  ℤ, pos, negsuc, ◌+◌, ◌*◌, ◌<◌, bytes, ℕ, ◌≤◌, ◌≡◌, ◌≢◌, ◌⊎◌, false, Option, none, some, is_none,
  All, Text, Dict, lookup,
}
use devpods.Api.Templates.{BindingSpec}
use devpods.Webui.Kore.{ann_pool_size, allowed_values}

abbrev pub IsWhitelisted : Dict Text → Type 0
IsWhitelisted ann = All (λ e. is_none (lookup e.0 allowed_values) ≡ false) ann

abbrev pub IsPool : (Text → Option ℕ) → BindingSpec → Type 0
IsPool atoi b =
    (size : Text) × (n : ℕ) × (lookup ann_pool_size b.annotations ≡ some size)
    × (atoi size ≡ some n)
    × (1 ≤ n)

-- A whole number of cpus, of 10 ^ 9 units each, but for less than a thousandth of one, which rounding up
-- takes away.
abbrev pub IsWhole : ℤ → Type 0
IsWhole (pos n) = (c : ℕ) × (n ≤ c * 1000000000) × (c * 1000000000 < n + 1000000)
IsWhole (negsuc n) = (c : ℕ) × (c * 1000000000 ≤ n + 1) × (n + 1 < c * 1000000000 + 1000000)

-- An absent resource counts as zero.
abbrev pub cpus : Dict ℤ → ℤ
cpus m = elim (lookup (bytes "cpu") m) [ none ↦ pos 0 | some q ↦ q ]

-- A limit that is whole, and no other number requested.
abbrev pub IsPin : BindingSpec → Type 0
IsPin b =
    (cpus b.limits ≢ pos 0)
    × IsWhole (cpus b.limits)
    × ((cpus b.requests ≡ pos 0) ⊎ (cpus b.requests ≡ cpus b.limits))
