-- ===== src/Gateway/LoginName.antt =====
-- internal/gateway/login_name.go. The regular expression is read as the scan that it denotes: `+`
-- lies outside the class of both groups, so the first group is the longest run of class bytes.
-- Failure is `none`.
pub mod Laws
mod Tests
use devpods.Prelude.{
  ℕ, zero, suc, ◌+◌, ◌-◌, ◌*◌, ◌/◌, ◌%◌, ◌^◌, ◌≤◌, ◌<◌, ◌≡◌, refl, sym, ap, ◌∙◌, subst, ◌≢◌, ◌↔◌,
  ◌⊎◌, inl, inr, Bool, true, false, not, ◌&&◌, ◌||◌, Option, none, some, List, [], ◌∷◌, ◌++◌, map,
  append_assoc, append-nil, arith, ltb, leb, ◌==◌, if◌then◌else◌, ltb→lt, lt→ltb, leb→le, le→leb,
  ==_iff, tests, Bool-cases, Option-cases, and-true, is_none, length, length-append, all, All,
  All-append, Text, bytes, text_eq, text_eq_refl, text_eq_iff, Text-cases, is_empty, Dict, lookup,
  insert, remove, lookup-insert, lookup-remove,
}

-- [a-z0-9-]
unfoldable pub is_login_char : ℕ → Bool
is_login_char c = (leb b'a' c && leb c b'z') || (leb b'0' c && leb c b'9') || c == b'-'

-- {1,32}, of class bytes only
unfoldable pub is_login_part : Text → Bool
unfolding is_login_char
is_login_part p = all is_login_char p && leb 1 (length p) && leb (length p) 32

-- The longest run of class bytes, and what follows it.
unfoldable pub split_run : Text → Text × Text
unfolding is_login_char
split_run [] = ([], [])
split_run (c ∷ s) =
    let (run, rest) = split_run s in if is_login_char c then (c ∷ run, rest) else ([], c ∷ s)

unfoldable pub match_parts : Text → Text → Option (Text × Text)
unfolding is_login_part
match_parts owner [] = none
match_parts owner (c ∷ pod) =
    if c == b'+' && is_login_part owner && is_login_part pod then some (owner, pod) else none

unfoldable pub parse_login_name : Text → Option (Text × Text)
unfolding split_run match_parts
parse_login_name s = let (owner, rest) = split_run s in match_parts owner rest

-- The name of the DevPod resource that a login denotes.
unfoldable pub devpod_resource_name : Text → Text → Text
devpod_resource_name owner pod = owner ++ b'-' ∷ pod
