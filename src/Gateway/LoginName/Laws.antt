-- ===== src/Gateway/LoginName/Laws.antt =====
-- What ParseLoginName accepts, and when two logins share a DevPod resource.
use devpods.Prelude.{
  ℕ, ◌+◌, ◌≤◌, ◌≡◌, refl, sym, ◌∙◌, ◌≢◌, ◌↔◌, ◌⊎◌, inr, true, false, some, [], ◌∷◌, ◌++◌,
  append_assoc, arith, length, length-append, all, All, All-append, Text,
}
use devpods.Gateway.LoginName.{
  is_login_char, is_login_part, split_run, match_parts, parse_login_name, devpod_resource_name,
}

abbrev pub IsLoginChar : ℕ → Type 0
IsLoginChar c = ((b'a' ≤ c) × (c ≤ b'z')) ⊎ (((b'0' ≤ c) × (c ≤ b'9')) ⊎ (c ≡ b'-'))

abbrev pub IsLoginPart : Text → Type 0
IsLoginPart p = All IsLoginChar p × (1 ≤ length p) × (length p ≤ 32)

is_login_char_iff : (c : ℕ) → (is_login_char c ≡ true) ↔ IsLoginChar c
unfolding is_login_char
is_login_char_iff c = ground arith

all_login_iff : (p : Text) → (all is_login_char p ≡ true) ↔ All IsLoginChar p
all_login_iff [] = ground arith
all_login_iff (c ∷ p) = ground (arith, is_login_char_iff c, all_login_iff p)

is_login_part_iff : (p : Text) → (is_login_part p ≡ true) ↔ IsLoginPart p
unfolding is_login_part
is_login_part_iff p = ground (arith, all_login_iff p)

split_run-append : (s : Text) → (split_run s).0 ++ (split_run s).1 ≡ s
unfolding split_run
split_run-append [] = refl
split_run-append (c ∷ s) = ground (arith, split_run-append s)

split_run_stop :
    (p rest : Text) (c : ℕ)
    → All IsLoginChar p
    → is_login_char c ≡ false
    → split_run (p ++ c ∷ rest) ≡ (p, c ∷ rest)
unfolding split_run
split_run_stop [] rest c _ h = ground arith
split_run_stop (d ∷ p) rest c (l, ls) h =
    ground (arith, is_login_char_iff d, split_run_stop p rest c ls h)

match_parts_sound :
    (owner rest o p : Text)
    → match_parts owner rest ≡ some (o, p)
    → (owner ++ rest ≡ o ++ b'+' ∷ p) × IsLoginPart o × IsLoginPart p
unfolding match_parts
match_parts_sound owner [] o p h = cc
match_parts_sound owner (c ∷ pod) o p h =
    ground (arith, is_login_part_iff owner, is_login_part_iff pod)

plus_not_login : is_login_char b'+' ≡ false
unfolding is_login_char
plus_not_login = refl

parse_sound :
    (s o p : Text)
    → parse_login_name s ≡ some (o, p)
    → (s ≡ o ++ b'+' ∷ p) × IsLoginPart o × IsLoginPart p
unfolding parse_login_name
parse_sound s o p h =
    let r = match_parts_sound (split_run s).0 (split_run s).1 o p h in
    (sym (split_run-append s) ∙ r.0, r.1, r.2)

parse_complete :
    (o p : Text) → IsLoginPart o → IsLoginPart p → parse_login_name (o ++ b'+' ∷ p) ≡ some (o, p)
unfolding parse_login_name match_parts
parse_complete o p ho hp =
    rw (split_run_stop o p b'+' ho.0 plus_not_login)
      (ground (arith, is_login_part_iff o, is_login_part_iff p))

-- A login is accepted as owner o and pod p exactly when it is o, a plus sign and p, and each of
-- the two has 1 to 32 bytes, all lowercase letters, digits or dashes.
pub parse_login_name_iff :
    (s o p : Text)
    → (parse_login_name s ≡ some (o, p)) ↔ ((s ≡ o ++ b'+' ∷ p) × IsLoginPart o × IsLoginPart p)
parse_login_name_iff s o p = (parse_sound s o p, λ h. rw h.0 (parse_complete o p h.1 h.2))

abbrev pub HasNoDash : Text → Type 0
HasNoDash = All (λ c. c ≢ b'-')

dash_split :
    (o o' p p' : Text)
    → HasNoDash o
    → HasNoDash o'
    → o ++ b'-' ∷ p ≡ o' ++ b'-' ∷ p'
    → (o ≡ o') × (p ≡ p')
dash_split [] [] p p' h h' e = ground arith
dash_split [] (c ∷ o') p p' h h' e = ground arith
dash_split (c ∷ o) [] p p' h h' e = ground arith
dash_split (c ∷ o) (d ∷ o') p p' h h' e = ground (arith, dash_split o o' p p' h.1 h'.1)

-- Owners without a dash never share a DevPod resource: two logins of such owners that denote one
-- resource have the same owner and the same pod.
pub devpod_resource_name-injective :
    (o o' p p' : Text)
    → HasNoDash o
    → HasNoDash o'
    → devpod_resource_name o p ≡ devpod_resource_name o' p'
    → (o ≡ o') × (p ≡ p')
unfolding devpod_resource_name
devpod_resource_name-injective o o' p p' h h' e = dash_split o o' p p' h h' e

IsLoginPart-dash :
    (a b : Text)
    → All IsLoginChar a
    → All IsLoginChar b
    → length a + length b ≤ 31
    → IsLoginPart (a ++ b'-' ∷ b)
IsLoginPart-dash a b ha hb n = (
  All-append IsLoginChar a (b'-' ∷ b) ha (inr (inr refl), hb),
  omega (arith, length-append a (b'-' ∷ b)),
  omega (arith, length-append a (b'-' ∷ b)),
)

-- With dashes they may: whenever a, b and c are short login parts, the logins of owner "a-b" for
-- pod "c" and of owner "a" for pod "b-c" are both accepted, and denote one resource.
pub devpod_resource_name_shared :
    (a b c : Text)
    → IsLoginPart a
    → IsLoginPart b
    → IsLoginPart c
    → length a + length b ≤ 31
    → length b + length c ≤ 31
    → let dash = λ (s : Text) (t : Text). s ++ b'-' ∷ t in
      (parse_login_name (dash a b ++ b'+' ∷ c) ≡ some (dash a b, c))
      × (parse_login_name (a ++ b'+' ∷ dash b c) ≡ some (a, dash b c))
      × (devpod_resource_name (dash a b) c ≡ devpod_resource_name a (dash b c))
unfolding devpod_resource_name
devpod_resource_name_shared a b c ha hb hc n m = (
  parse_complete _ c (IsLoginPart-dash a b ha.0 hb.0 n) hc,
  parse_complete a _ ha (IsLoginPart-dash b c hb.0 hc.0 m),
  append_assoc a (b'-' ∷ b) (b'-' ∷ c),
)
