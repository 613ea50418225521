-- ===== src/Gateway/LdapWarn.antt =====
-- internal/gateway/ldap.go: the limit on the rate of warnings, the classes of errors that it goes by,
-- and the conversion of a timeout to the seconds of the protocol. Times are counts of nanoseconds.
-- A nil error does not reach the classes: the one caller passes an error.
pub mod Laws
mod Tests
use devpods.Prelude.{
  ℕ, zero, suc, ◌+◌, ◌-◌, ◌*◌, ◌/◌, ◌%◌, ◌^◌, ◌≤◌, ◌<◌, ◌≡◌, refl, sym, ap, ◌∙◌, subst, ◌≢◌, ◌↔◌,
  ◌⊎◌, inl, inr, Bool, true, false, not, ◌&&◌, ◌||◌, Option, none, some, List, [], ◌∷◌, ◌++◌, map,
  append_assoc, append-nil, arith, ltb, leb, ◌==◌, if◌then◌else◌, ltb→lt, lt→ltb, leb→le, le→leb,
  ==_iff, tests, Bool-cases, Option-cases, and-true, is_none, some-injective, length, length-append,
  all, All, All-append, Text, bytes, text_eq, text_eq_refl, text_eq_iff, Text-cases, is_empty,
  has_prefix, contains, Dict, lookup, insert, remove, lookup-insert, lookup-remove,
}

pub data ErrorClass : Type 0 where
  network bind timeout other : ErrorClass

-- classifyLDAPError, on the text of the error.
unfoldable pub classify_ldap_error : Text → ErrorClass
unfolding contains
classify_ldap_error s =
    if contains (bytes "Network Error") s
      || contains (bytes "connection refused") s
      || contains (bytes "i/o timeout") s
      || contains (bytes "no such host") s
    then network
    else if contains (bytes "Invalid Credentials") s
    then bind
    else if contains (bytes "Time Limit Exceeded") s
    then timeout
    else other

unfoldable pub class_name : ErrorClass → Text
class_name network = bytes "network"
class_name bind = bytes "bind"
class_name timeout = bytes "timeout"
class_name other = bytes "other"

unfoldable pub warn_key : Text → Text → Text
unfolding classify_ldap_error class_name
warn_key username err = username ++ b'|' ∷ class_name (classify_ldap_error err)

abbrev pub minute : ℕ
minute = 60_000_000_000

unfoldable pub is_fresh : Option ℕ → ℕ → Bool
is_fresh none now = true
is_fresh (some last) now = leb (last + minute) now

-- warnRateLimited: is the record a warning, and not a debug line; and the times of the last warnings.
unfoldable pub warn_rate_limited : Text → Text → ℕ → Dict ℕ → Bool × Dict ℕ
warn_rate_limited username err now last_warn =
    let key = warn_key username err in
    let fresh = is_fresh (lookup key last_warn) now in
    (fresh, if fresh then insert key now last_warn else last_warn)

-- roundUpSeconds.
unfoldable pub round_up_seconds : ℕ → ℕ
round_up_seconds d =
    let secs = if ltb 0 (d % 1_000_000_000) then d / 1_000_000_000 + 1 else d / 1_000_000_000 in
    if ltb secs 1 then 1 else secs
