-- ===== src/Webui/Names/Laws.antt =====
-- Labels and the logins of the gateway.
use devpods.Prelude.{
  ℕ, ◌+◌, ◌≤◌, ◌≡◌, refl, inr, true, [], ◌∷◌, ◌++◌, arith, and-true, length, length-append, All,
  Text,
}
use devpods.Gateway.LoginName.Laws.{IsLoginPart, IsLoginChar}
use devpods.Webui.Names.{
  is_alphanumeric, is_label_char, is_label_rest, is_label, map_username, has_name_budget,
  max_dev_pod_name_len,
}

alphanumeric_login : (c : ℕ) → is_alphanumeric c ≡ true → IsLoginChar c
alphanumeric_login c h = ground arith

label_char-login : (c : ℕ) → is_label_char c ≡ true → IsLoginChar c
label_char-login c h = ground arith

rest_login : (s : Text) → is_label_rest s ≡ true → All IsLoginChar s
unfolding is_label_rest
rest_login [] h = tt
rest_login (c ∷ []) h = (alphanumeric_login c h, tt)
rest_login (c ∷ d ∷ s) h =
    let (a, k) = and-true (is_label_char c) (is_label_rest (d ∷ s)) h in
    (label_char-login c a, rest_login (d ∷ s) k)

-- A label is not empty, and has only bytes that a login has.
pub label_login : (s : Text) → is_label s ≡ true → All IsLoginChar s × (1 ≤ length s)
unfolding is_label
label_login [] h = cc
label_login (c ∷ s) h =
    let (a, k) = and-true (is_alphanumeric c) (is_label_rest s) h in
    ((alphanumeric_login c a, rest_login s k), omega arith)

label_rest-append :
    (s : Text) → is_label_rest s ≡ true → is_label_rest (s ++ b'-' ∷ b'a' ∷ []) ≡ true
unfolding is_label_rest
label_rest-append [] h = refl
label_rest-append (a ∷ []) h = ground arith
label_rest-append (a ∷ d ∷ s) h = ground (arith, label_rest-append (d ∷ s))

label-append : (s : Text) → is_label s ≡ true → is_label (s ++ b'-' ∷ b'a' ∷ []) ≡ true
unfolding is_label
label-append [] h = cc
label-append (a ∷ s) h = ground (arith, label_rest-append s)

map_cases :
    (prefix username name : Text)
    → map_username prefix username ≡ inr name
    → (is_label name ≡ true) × (length name + 2 ≤ 22)
unfolding map_username has_name_budget
map_cases prefix username name h = ground arith

-- A username that is mapped becomes a label that the gateway reads as an owner, and leaves room for at
-- least one name of a DevPod.
pub map_username-LeavesRoom :
    (prefix username name : Text)
    → map_username prefix username ≡ inr name
    → IsLoginPart name
      × (is_label (name ++ b'-' ∷ b'a' ∷ []) ≡ true)
      × (length (name ++ b'-' ∷ b'a' ∷ []) ≤ max_dev_pod_name_len)
map_username-LeavesRoom prefix username name h =
    let (label, short) = map_cases prefix username name h in
    let (chars, some_char) = label_login name label in
    (
      (chars, some_char, omega (arith, short)),
      label-append name label,
      omega (arith, short, length-append name (b'-' ∷ b'a' ∷ [])),
    )
