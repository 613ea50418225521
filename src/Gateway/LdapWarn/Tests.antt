-- ===== src/Gateway/LdapWarn/Tests.antt =====
-- Failures of one user, and instances of the theorems.
use devpods.Prelude.{ℕ, ◌≡◌, refl, List, [], ◌∷◌, bytes, text_eq, lookup, insert}
use devpods.Gateway.LdapWarn.{warn_key, is_fresh, warn_rate_limited}
use devpods.Gateway.LdapWarn.Laws.{Failure, warnings, IsSpaced, warnings-IsSpaced}

abbrev down_at : ℕ → Failure
down_at t = record { username = bytes "al"; err = bytes "i/o timeout"; time = t }

abbrev outage : List Failure
outage = down_at 0 ∷ down_at 30_000_000_000 ∷ down_at 60_000_000_000 ∷ []

two_warnings :
    warnings [] outage ≡ (bytes "al|network", 0) ∷ (bytes "al|network", 60_000_000_000) ∷ []
unfolding warnings warn_rate_limited warn_key is_fresh lookup insert text_eq
two_warnings = refl

warnings-IsSpaced_example : IsSpaced (warnings [] outage)
warnings-IsSpaced_example = warnings-IsSpaced outage []
