-- ===== src/Webui/Accounts/Laws.antt =====
-- What the handlers of the accounts write.
use devpods.Prelude.{
  List, [], ◌∷◌, text_eq, ◌||◌, ℕ, ◌≡◌, refl, ap, ◌∙◌, subst, inl, inr, true, false, not, Option,
  none, some, arith, ltb, Bool-cases, Outcome, refused, passed, or_refuse, passed-injective,
  refused-ne-passed, Outcome-cases, >>=-passed, guarded, length, Text, is_empty, Bool, sym,
}
use devpods.Api.Kube.{GetResult, found, not_found, get_failed}
use devpods.Api.Users.{User}
use devpods.Webui.Requests.{Session}
use devpods.Webui.Accounts.{
  is_admin_name, Bcrypt, LoginSettings, AccountError, malformed, password_disabled, admin_only,
  unreadable, no_user, no_password, wrong_password, hash_password, verify_password, admin_for,
  password_login, login_user, session_for, change_password, with_password, UserPatch,
  patch_password, patch_display_name, patch_quota, patch_user, build_quota, QuotaPatch,
}

-- What x/crypto/bcrypt documents: a hash is not empty, and it matches its password.
pub record HashLaws (tool : Bcrypt) : Type 0 where
  pub is_nonempty : (pw hash : Text) → tool.generate pw ≡ passed hash → is_empty hash ≡ false
  pub is_matched : (pw hash : Text) → tool.generate pw ≡ passed hash → tool.matches hash pw ≡ true

pub hash_password-passed :
    (tool : Bcrypt) (pw : Text) (n : ℕ) (hash : Text)
    → hash_password tool pw n ≡ passed hash
    → (ltb (length pw) n ≡ false) × (tool.generate pw ≡ passed hash)
unfolding hash_password
hash_password-passed tool pw n hash h = elim (Bool-cases (ltb (length pw) n)) [
  | inl e ↦ absurd (refused-ne-passed (rw e at h))
  | inr e ↦ elim (Outcome-cases (tool.generate pw)) [
    | inl (made, g) ↦ (e, g ∙ ap passed (passed-injective (rw (e, g) at h)))
    | inr (err, g) ↦ absurd (refused-ne-passed (rw (e, g) at h))
  ]
]

found-passed :
    (got : GetResult User) (a b : AccountError) {u : User}
    → ◌≡◌ {A = Outcome AccountError User}
        (elim got [ found u ↦ passed u | not_found ↦ refused a | get_failed err ↦ refused b ])
        (passed u)
    → got ≡ found u
found-passed (found u) a b h = ap found (passed-injective h)
found-passed not_found a b h = cc
found-passed (get_failed err) a b h = cc

pub record Changed (tool : Bcrypt) (cfg : LoginSettings) (got : GetResult User) (old new : Text)
    (written : User) : Type 0 where
  pub before : User
  pub is_found : got ≡ found before
  pub hash : Text
  pub is_enabled : not cfg.password_auth ≡ false
  pub had_password : is_empty before.spec.password_hash ≡ false
  pub knew_password : not (tool.matches before.spec.password_hash old) ≡ false
  pub is_long : ltb (length new) cfg.password_min_length ≡ false
  pub is_hashed : tool.generate new ≡ passed hash
  pub is_written : with_password before hash ≡ written

pub change_password-Changed :
    (tool : Bcrypt) (cfg : LoginSettings) (got : GetResult User) (old new : Text) (u : User)
    → change_password tool cfg got (some (old, new)) ≡ passed u
    → Changed tool cfg got old new u
unfolding change_password verify_password
change_password-Changed tool cfg got old new u h =
    let (on, h1) = guarded (not cfg.password_auth) password_disabled _ h in
    let (before, there, h2) =
      >>=-passed
        (elim got [
          | found u ↦ passed u
          | not_found ↦ refused unreadable
          | get_failed err ↦ refused unreadable
        ])
        _ h1 in
    let (had, h3) = guarded (is_empty before.spec.password_hash) no_password _ h2 in
    let (knew, h4) =
      guarded (not (tool.matches before.spec.password_hash old)) wrong_password _ h3 in
    let (hash, made, h5) = >>=-passed (hash_password tool new cfg.password_min_length) _ h4 in
    let (long, generated) = hash_password-passed tool new cfg.password_min_length hash made in
    record {
      before = before;
      is_found = found-passed got unreadable unreadable there;
      hash = hash;
      is_enabled = on;
      had_password = had;
      knew_password = knew;
      is_long = long;
      is_hashed = generated;
      is_written = passed-injective h5;
    }

pub login_with_hash :
    (tool : Bcrypt) (cfg : LoginSettings) (get : Text → GetResult User) (u : User) (name pw : Text)
    (elapsed : ℕ)
    → get name ≡ found u
    → not cfg.password_auth ≡ false
    → is_empty u.spec.password_hash ≡ false
    → tool.matches u.spec.password_hash pw ≡ true
    → password_login tool cfg get (some (record { username = name; password = pw })) elapsed
      ≡ session_for name (admin_for cfg name u)
unfolding password_login login_user verify_password
login_with_hash tool cfg get u name pw elapsed g on e m = rw (on, g, e, m) refl

-- The admin bit of a login: the name is on the list of the settings, or the User has it.
abbrev pub lists : List Text → Text → Bool
lists [] name = false
lists (a ∷ admins) name = text_eq a name || lists admins name

lists_lem : (admins : List Text) (name : Text) → is_admin_name admins name ≡ lists admins name
unfolding is_admin_name
lists_lem [] name = refl
lists_lem (a ∷ admins) name = ap (λ b. text_eq a name || b) (lists_lem admins name)

admin_for_lem :
    (cfg : LoginSettings) (name : Text) (u : User)
    → admin_for cfg name u ≡ (lists cfg.admins name || u.spec.admin)
unfolding admin_for
admin_for_lem cfg name u = ap (λ b. b || u.spec.admin) (lists_lem cfg.admins name)

-- A user who has changed the password can log in with the new one, and with no more rights than before:
-- after change_password has found a User and written one, password_login, when it finds the written User
-- under a name, opens a session for the name, with the admin bit that the found User has or the settings
-- give to the name. The hashes of bcrypt are not empty and match their passwords.
pub change_password-login :
    (tool : Bcrypt) (cfg : LoginSettings) (got : GetResult User) (old new name : Text) (u : User)
    (get : Text → GetResult User) (elapsed : ℕ)
    → HashLaws tool
    → change_password tool cfg got (some (old, new)) ≡ passed u
    → get name ≡ found u
    → (before : User) × (got ≡ found before)
      × (password_login tool cfg get (some (record { username = name; password = new })) elapsed
          ≡ session_for name (lists cfg.admins name || before.spec.admin))
change_password-login tool cfg got old new name u get elapsed laws h g =
    let c = change_password-Changed tool cfg got old new u h in
    let same = ap (λ (x : User). x.spec.password_hash) c.is_written in
    let bit = ap (λ (x : User). x.spec.admin) c.is_written in
    (
      c.before,
      c.is_found,
      login_with_hash tool cfg get u name new elapsed g c.is_enabled
            (subst (λ x. is_empty x ≡ false) same (laws.is_nonempty new c.hash c.is_hashed))
            (subst (λ x. tool.matches x new ≡ true) same (laws.is_matched new c.hash c.is_hashed))
          ∙ ap (session_for name)
              (admin_for_lem cfg name u ∙ ap (λ b. lists cfg.admins name || b) (sym bit)),
    )

-- What a patch of a User leaves as it was.
abbrev pub IsSameAccount : User → User → Type 0
IsSameAccount u v =
    (u.spec.admin ≡ v.spec.admin)
    × (u.spec.pubkeys ≡ v.spec.pubkeys)
    × (u.spec.oidc_subject ≡ v.spec.oidc_subject)
    × (u.metadata ≡ v.metadata)
    × (u.status ≡ v.status)

IsSameAccount-trans : (u v w : User) → IsSameAccount u v → IsSameAccount v w → IsSameAccount u w
IsSameAccount-trans u v w (a, b, c, d, e) (a2, b2, c2, d2, e2) =
    (a ∙ a2, b ∙ b2, c ∙ c2, d ∙ d2, e ∙ e2)

patch_password-Same :
    (tool : Bcrypt) (cfg : LoginSettings) (pw : Option Text) (u v : User)
    → patch_password tool cfg pw u ≡ passed v
    → IsSameAccount u v
unfolding patch_password
patch_password-Same tool cfg none u v h =
    subst (IsSameAccount u) (passed-injective h) (refl, refl, refl, refl, refl)
patch_password-Same tool cfg (some pw) u v h =
    let (_, h1) = guarded (not cfg.password_auth) password_disabled _ h in
    let (hash, _, h2) = >>=-passed (hash_password tool pw cfg.password_min_length) _ h1 in
    subst (IsSameAccount u) (passed-injective h2) (refl, refl, refl, refl, refl)

patch_display_name-Same :
    (name : Option Text) (u : User) → IsSameAccount u (patch_display_name name u)
patch_display_name-Same none u = (refl, refl, refl, refl, refl)
patch_display_name-Same (some name) u = (refl, refl, refl, refl, refl)

patch_quota-Same :
    (tool : Bcrypt) (p : Option QuotaPatch) (u v : User)
    → patch_quota tool p u ≡ passed v
    → IsSameAccount u v
unfolding patch_quota
patch_quota-Same tool none u v h =
    subst (IsSameAccount u) (passed-injective h) (refl, refl, refl, refl, refl)
patch_quota-Same tool (some p) u v h =
    let (quota, _, h1) = >>=-passed (build_quota tool p) _ h in
    subst (IsSameAccount u) (passed-injective h1) (refl, refl, refl, refl, refl)

-- A patch of a User comes from an admin and writes the User that was found, with the same admin bit,
-- keys, subject, metadata and status.
pub patch_user-IsSameAccount :
    (tool : Bcrypt) (cfg : LoginSettings) (sess : Session) (body : Option UserPatch)
    (got : GetResult User) (v : User)
    → patch_user tool cfg sess body got ≡ passed v
    → (sess.admin ≡ true) × (u : User) × (got ≡ found u) × IsSameAccount u v
unfolding patch_user
patch_user-IsSameAccount tool cfg sess body got v h =
    let (by, h1) = guarded (not sess.admin) admin_only _ h in
    let (req, _, h2) = >>=-passed (or_refuse body malformed) _ h1 in
    let (u, e, h3) =
      >>=-passed
        (elim got [
          | found u ↦ passed u
          | not_found ↦ refused no_user
          | get_failed err ↦ refused unreadable
        ])
        _ h2 in
    let (changed, p, h4) = >>=-passed (patch_password tool cfg req.password u) _ h3 in
    let named = patch_display_name req.display_name changed in
    (
      ground (arith, by),
      u,
      found-passed got no_user unreadable e,
      IsSameAccount-trans u changed v (patch_password-Same tool cfg req.password u changed p) (
          IsSameAccount-trans changed named v (patch_display_name-Same req.display_name changed)
            (patch_quota-Same tool req.quota named v h4)),
    )
