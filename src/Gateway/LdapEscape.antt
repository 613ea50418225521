-- ===== src/Gateway/LdapEscape.antt =====
-- internal/gateway/ldap_escape.go. A string is the list of its bytes.
pub mod Laws
mod Tests
use devpods.Prelude.{
  ℕ, zero, suc, ◌+◌, ◌-◌, ◌*◌, ◌/◌, ◌%◌, ◌^◌, ◌≤◌, ◌<◌, ◌≡◌, refl, sym, ap, ◌∙◌, subst, ◌≢◌, ◌↔◌,
  ◌⊎◌, inl, inr, Bool, true, false, not, ◌&&◌, ◌||◌, Option, none, some, List, [], ◌∷◌, ◌++◌, map,
  append_assoc, append-nil, arith, ltb, leb, ◌==◌, if◌then◌else◌, ltb→lt, lt→ltb, leb→le, le→leb,
  ==_iff, tests, Bool-cases, Option-cases, and-true, is_none, length, length-append, all, All,
  All-append, Text, bytes, text_eq, text_eq_refl, text_eq_iff, Text-cases, is_empty, Dict, lookup,
  insert, remove, lookup-insert, lookup-remove,
}

-- The cases of both switch statements.
unfoldable pub is_special : ℕ → Bool
is_special c = c == b'\\' || c == 0 || c == b'(' || c == b')' || c == b'*'

-- What one round of the second loop writes.
unfoldable pub escape_byte : ℕ → Text
escape_byte c =
    if c == b'\\'
    then b'\\' ∷ b'5' ∷ b'c' ∷ []
    else if c == 0
    then b'\\' ∷ b'0' ∷ b'0' ∷ []
    else if c == b'('
    then b'\\' ∷ b'2' ∷ b'8' ∷ []
    else if c == b')'
    then b'\\' ∷ b'2' ∷ b'9' ∷ []
    else if c == b'*'
    then b'\\' ∷ b'2' ∷ b'a' ∷ []
    else c ∷ []

-- The first loop: is every byte safe?
unfoldable pub is_safe : Text → Bool
unfolding is_special
is_safe [] = true
is_safe (c ∷ s) = not (is_special c) && is_safe s

-- The second loop, with the builder's content.
unfoldable pub write_escaped : Text → Text → Text
unfolding escape_byte
write_escaped [] out = out
write_escaped (c ∷ s) out = write_escaped s (out ++ escape_byte c)

unfoldable pub escape_rfc4515 : Text → Text
unfolding is_safe write_escaped
escape_rfc4515 s = if is_empty s || is_safe s then s else write_escaped s []
