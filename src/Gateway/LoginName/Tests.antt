-- ===== src/Gateway/LoginName/Tests.antt =====
-- Runs of the login-name parser, and instances of its theorems.
use devpods.Prelude.{◌≡◌, refl, ◌↔◌, none, some, ◌∷◌, ◌++◌, arith, bytes}
use devpods.Gateway.LoginName.{parse_login_name}
use devpods.Gateway.LoginName.Laws.{IsLoginPart, parse_login_name_iff}

accepted : parse_login_name (bytes "alice+day2") ≡ some (bytes "alice", bytes "day2")
unfolding parse_login_name
accepted = refl

rejected :
    (parse_login_name (bytes "alice") ≡ none)
    × (parse_login_name (bytes "Alice+x") ≡ none)
    × (parse_login_name (bytes "a+b+c") ≡ none)
    × (parse_login_name (bytes "+b") ≡ none)
unfolding parse_login_name
rejected = (refl, refl, refl, refl)

alice_IsLoginPart : IsLoginPart (bytes "alice")
alice_IsLoginPart = omega arith

parse_login_name_iff_example :
    (parse_login_name (bytes "al+d2") ≡ some (bytes "al", bytes "d2")) ↔ (
      (bytes "al+d2" ≡ bytes "al" ++ b'+' ∷ bytes "d2")
      × IsLoginPart (bytes "al")
      × IsLoginPart (bytes "d2"))
parse_login_name_iff_example = parse_login_name_iff (bytes "al+d2") (bytes "al") (bytes "d2")
