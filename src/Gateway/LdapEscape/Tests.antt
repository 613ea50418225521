-- ===== src/Gateway/LdapEscape/Tests.antt =====
-- Runs of the filter escape, and instances of its theorems.
use devpods.Prelude.{◌≡◌, refl, some, All, bytes}
use devpods.Gateway.LdapEscape.{escape_rfc4515}
use devpods.Gateway.LdapEscape.Laws.{
  IsInert, read_value, read_value-escape_rfc4515, escape_rfc4515-IsInert,
}

escaped : escape_rfc4515 (bytes "a*)(\\") ≡ bytes "a\\2a\\29\\28\\5c"
unfolding escape_rfc4515
escaped = refl

untouched : escape_rfc4515 (bytes "alice") ≡ bytes "alice"
unfolding escape_rfc4515
untouched = refl

read_value-escape_rfc4515_example :
    read_value (escape_rfc4515 (bytes "*)(uid=*")) ≡ some (bytes "*)(uid=*")
read_value-escape_rfc4515_example = read_value-escape_rfc4515 (bytes "*)(uid=*")

escape_rfc4515-IsInert_example : All IsInert (escape_rfc4515 (bytes "*)("))
escape_rfc4515-IsInert_example = escape_rfc4515-IsInert (bytes "*)(")
