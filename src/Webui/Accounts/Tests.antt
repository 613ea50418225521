-- ===== src/Webui/Accounts/Tests.antt =====
-- Concrete runs of the handlers of the accounts.
use devpods.Prelude.{
  ◌||◌, pos, ◌≡◌, refl, subst, true, false, Option, none, some, [], ◌∷◌, passed, passed-injective,
  Text, bytes, text_eq, text_eq_refl, is_empty, insert,
}
use devpods.Api.Kube.{found}
use devpods.Api.Users.{User, UserQuota}
use devpods.Render.Objects.{metadata_of}
use devpods.Webui.Requests.{Session}
use devpods.Webui.Accounts.{
  Bcrypt, LoginSettings, hash_password, verify_password, password_login, login_user, fail_login,
  session_for, invalid, change_password, patch_user, patch_password, patch_quota, UserPatch,
  build_quota, add_quantity, storage_quantity,
}
use devpods.Webui.Accounts.Laws.{
  HashLaws, lists, IsSameAccount, change_password-login, patch_user-IsSameAccount,
}

-- A hash that puts one byte in front.
abbrev marked : Bcrypt
marked = record {
  generate = λ pw. passed (36 ∷ pw);
  matches = λ hash pw. text_eq hash (36 ∷ pw);
  parse_quantity = λ value. some (pos 3);
}

marked-HashLaws : HashLaws marked
marked-HashLaws = record {
  is_nonempty = λ pw hash h. subst (λ x. is_empty x ≡ false) (passed-injective h) refl;
  is_matched = λ pw hash h.
      subst (λ x. text_eq x (36 ∷ pw) ≡ true) (passed-injective h) (text_eq_refl (36 ∷ pw));
}

abbrev settings : LoginSettings
settings = record { password_auth = true; password_min_length = 3; admins = [] }

abbrev carol : Text → Text → Option UserQuota → User
carol hash name quota = record {
  metadata = metadata_of (bytes "carol") [] [];
  spec = record {
    pubkeys = [];
    oidc_subject = [];
    display_name = name;
    quota = quota;
    password_hash = hash;
    admin = false;
  };
  status = record { dev_pod_count = 0 };
}

-- A wrong password is answered after the rest of the fifth of a second.
wrong_password_waits :
    password_login marked settings
      (λ name. found (carol (bytes "$old") [] none))
      (some (record { username = bytes "carol"; password = bytes "new" }))
      150000000
    ≡ invalid 50000000
unfolding password_login login_user verify_password fail_login text_eq
wrong_password_waits = refl

change_password-login_example :
    (before : User) × (found (carol (bytes "$old") [] none) ≡ found before)
    × (password_login marked settings
          (λ name. found (carol (bytes "$new") [] none))
          (some (record { username = bytes "carol"; password = bytes "new" }))
          7
        ≡ session_for (bytes "carol") (lists [] (bytes "carol") || before.spec.admin))
unfolding change_password hash_password verify_password text_eq
change_password-login_example =
    change_password-login marked settings (found (carol (bytes "$old") [] none)) (bytes "old")
      (bytes "new") (bytes "carol") (carol (bytes "$new") [] none)
      (λ name. found (carol (bytes "$new") [] none)) 7 marked-HashLaws refl refl

abbrev boss : Session
boss = record { user = bytes "root"; admin = true; expiry = 0 }

abbrev promotion : UserPatch
promotion = record {
  password = some (bytes "fresh");
  display_name = some (bytes "Carol");
  quota =
      some (record { max_dev_pods = none; cpu = bytes "3"; memory = []; gpu = []; storage = [] });
}

abbrev three_cores : UserQuota
three_cores = record {
  max_dev_pods = none;
  compute = some ((bytes "cpu", pos 3) ∷ []);
  storage = none;
}

patch_user-IsSameAccount_example :
    (boss.admin ≡ true)
    × (u : User) × (found (carol [] [] none) ≡ found u)
    × IsSameAccount u (carol (bytes "$fresh") (bytes "Carol") (some three_cores))
unfolding patch_user patch_password hash_password patch_quota build_quota add_quantity
    storage_quantity insert
patch_user-IsSameAccount_example =
    patch_user-IsSameAccount marked settings boss (some promotion) (found (carol [] [] none))
      (carol (bytes "$fresh") (bytes "Carol") (some three_cores)) refl
