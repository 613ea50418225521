-- ===== src/Webui/Names.antt =====
-- internal/webui/mapping.go: DNS-1123 labels, and the budget that an owner leaves for names.
pub mod Laws
mod Tests
use devpods.Prelude.{
  ℕ, zero, suc, ◌+◌, ◌-◌, ◌*◌, ◌/◌, ◌%◌, ◌^◌, ◌≤◌, ◌<◌, ◌≡◌, refl, sym, ap, ◌∙◌, subst, ◌≢◌, ◌↔◌,
  ◌⊎◌, inl, inr, Bool, true, false, not, ◌&&◌, ◌||◌, Option, none, some, List, [], ◌∷◌, ◌++◌, map,
  append_assoc, append-nil, arith, ltb, leb, ◌==◌, if◌then◌else◌, ltb→lt, lt→ltb, leb→le, le→leb,
  ==_iff, tests, Bool-cases, Option-cases, and-true, is_none, some-injective, length, length-append,
  List-cases, all, All, All-append, Text, bytes, text_eq, text_eq_refl, text_eq_iff, Text-cases,
  text_neq-sym, is_empty, has_prefix, contains, itoa, digits, Dict, lookup, insert, remove,
  lookup-insert, lookup-remove,
}

-- [a-z0-9] and [-a-z0-9].
abbrev pub is_alphanumeric : ℕ → Bool
is_alphanumeric c = (leb b'a' c && leb c b'z') || (leb b'0' c && leb c b'9')

abbrev pub is_label_char : ℕ → Bool
is_label_char c = (c == b'-') || is_alphanumeric c

-- ([-a-z0-9]*[a-z0-9])?$ behind a byte: a rest that is empty, or ends in [a-z0-9].
unfoldable pub is_label_rest : Text → Bool
is_label_rest [] = true
is_label_rest (c ∷ []) = is_alphanumeric c
is_label_rest (c ∷ d ∷ s) = is_label_char c && is_label_rest (d ∷ s)

-- dns1123Label.MatchString.
unfoldable pub is_label : Text → Bool
unfolding is_label_rest
is_label [] = false
is_label (c ∷ s) = is_alphanumeric c && is_label_rest s

abbrev pub max_dev_pod_name_len : ℕ
max_dev_pod_name_len = 22

-- NameBudget is at least the number: it is 22 - len(owner) - 1, which may be negative.
unfoldable pub has_name_budget : Text → ℕ → Bool
has_name_budget owner n = leb (length owner + 1 + n) max_dev_pod_name_len

pub data MapError : Type 0 where
  empty_username not_a_label no_room : MapError

-- MapUsername: the name on the right.
unfoldable pub map_username : Text → Text → MapError ⊎ Text
unfolding is_label has_name_budget
map_username prefix username =
    let name = prefix ++ username in
    if is_empty username
    then inl empty_username
    else if not (is_label name)
    then inl not_a_label
    else if not (has_name_budget name 1)
    then inl no_room
    else inr name
