-- ===== src/Webui/Accounts.antt =====
-- internal/webui/password.go and api_admin_users.go: passwords, logins and the users that an admin
-- edits. A handler ends in a refusal, or in the User that it writes. The body of the request is decoded
-- before, and bcrypt is a parameter; the list of users only reads, and is left out.
use devpods.Prelude.{
  ℤ, pos, negsuc, ◌+ℤ◌, ltb_ℤ, eqb_ℤ, is_zero, ℕ, zero, suc, ◌+◌, ◌-◌, ◌*◌, ◌/◌, ◌%◌, ◌^◌, ◌≤◌, ◌<◌,
  ◌≡◌, refl, sym, ap, ◌∙◌, subst, ◌≢◌, ◌↔◌, ◌⊎◌, inl, inr, Bool, true, false, not, ◌&&◌, ◌||◌,
  Option, none, some, List, [], ◌∷◌, ◌++◌, map, append_assoc, append-nil, arith, ltb, leb, ◌==◌,
  if◌then◌else◌, ltb→lt, lt→ltb, leb→le, le→leb, ==_iff, tests, Bool-cases, Option-cases, and-true,
  is_none, some-injective, Outcome, refused, passed, ◌>>=◌, or_refuse, refuse_if, passed-injective,
  refused-ne-passed, Outcome-cases, >>=-passed, or_refuse-passed, refuse_if-passed, guarded, length,
  length-append, List-cases, all, All, All-append, Text, bytes, text_eq, text_eq_refl, text_eq_iff,
  Text-cases, text_neq-sym, is_empty, has_prefix, contains, itoa, digits, Dict, lookup, insert,
  remove, lookup-insert, lookup-remove,
}
use devpods.Api.Kube.{GetResult, found, not_found, get_failed, ObjectMeta}
use devpods.Api.Users.{User, UserSpec, UserQuota}
use devpods.Render.Objects.{metadata_of}
use devpods.Webui.Requests.{Session}
use devpods.Webui.Names.{MapError, map_username}
use devpods.Webui.Quota.{cpu, memory}
pub mod Laws
mod Tests

-- bcrypt, with the salt that it draws, and resource.ParseQuantity.
pub record Bcrypt : Type 0 where
  pub generate : Text → Outcome Text Text
  pub matches : Text → Text → Bool
  pub parse_quantity : Text → Option ℤ

-- The settings of the Server that the handlers read.
pub record LoginSettings : Type 0 where
  pub password_auth : Bool
  pub password_min_length : ℕ
  pub admins : List Text

pub data AccountError : Type 0 where
  admin_only password_disabled malformed bad_name bad_password bad_quota no_user unreadable
        no_password wrong_password :
      AccountError

unfoldable pub hash_password : Bcrypt → Text → ℕ → Outcome AccountError Text
hash_password tool pw min_len =
    if ltb (length pw) min_len then refused bad_password else (elim (tool.generate pw) [
      | refused err ↦ refused bad_password
      | passed hash ↦ passed hash
    ])

unfoldable pub verify_password : Bcrypt → Text → Text → Bool
verify_password tool hash pw = tool.matches hash pw

unfoldable pub is_admin_name : List Text → Text → Bool
is_admin_name [] name = false
is_admin_name (a ∷ admins) name = text_eq a name || is_admin_name admins name

unfoldable pub admin_for : LoginSettings → Text → User → Bool
unfolding is_admin_name
admin_for cfg username u = is_admin_name cfg.admins username || u.spec.admin

-- failFloor, in nanoseconds.
abbrev pub fail_floor : ℕ
fail_floor = 200000000

pub record Credentials : Type 0 where
  pub username : Text
  pub password : Text

-- A failed login is answered after a wait; a session carries the user and the admin bit.
pub data LoginReply : Type 0 where
  login_disabled login_malformed : LoginReply
  invalid : (wait : ℕ) → LoginReply
  session_for : Text → Bool → LoginReply

-- fail, when `elapsed` has passed since the start.
unfoldable pub fail_login : ℕ → LoginReply
fail_login elapsed = invalid (fail_floor - elapsed)

unfoldable pub login_user : Bcrypt → LoginSettings → Credentials → GetResult User → ℕ → LoginReply
unfolding fail_login verify_password admin_for
login_user tool cfg req not_found elapsed = fail_login elapsed
login_user tool cfg req (get_failed err) elapsed = fail_login elapsed
login_user tool cfg req (found u) elapsed =
    if is_empty u.spec.password_hash || not (verify_password tool u.spec.password_hash req.password)
    then fail_login elapsed
    else session_for req.username (admin_for cfg req.username u)

-- handlePasswordLogin; `get` reads a User.
unfoldable pub password_login :
    Bcrypt → LoginSettings → (Text → GetResult User) → Option Credentials → ℕ → LoginReply
unfolding login_user
password_login tool cfg get none elapsed =
    if not cfg.password_auth then login_disabled else login_malformed
password_login tool cfg get (some req) elapsed =
    if not cfg.password_auth
    then login_disabled
    else login_user tool cfg req (get req.username) elapsed

abbrev pub with_password : User → Text → User
with_password u hash = record u { spec = record u.spec { password_hash = hash } }

abbrev pub with_display_name : User → Text → User
with_display_name u name = record u { spec = record u.spec { display_name = name } }

abbrev pub with_quota : User → Option UserQuota → User
with_quota u quota = record u { spec = record u.spec { quota = quota } }

-- handleChangePassword, of the user of the session.
unfoldable pub change_password :
    Bcrypt → LoginSettings → GetResult User → Option (Text × Text) → Outcome AccountError User
unfolding hash_password verify_password
change_password tool cfg got body = do
  _ ← refuse_if (not cfg.password_auth) password_disabled
  req ← or_refuse body malformed
  u ← (elim got [
    | found u ↦ passed u
    | not_found ↦ refused unreadable
    | get_failed err ↦ refused unreadable
  ])
  _ ← refuse_if (is_empty u.spec.password_hash) no_password
  _ ← refuse_if (not (verify_password tool u.spec.password_hash req.0)) wrong_password
  hash ← hash_password tool req.1 cfg.password_min_length
  passed (with_password u hash)

pub record NewUser : Type 0 where
  pub username : Text
  pub display_name : Text
  pub password : Text

-- The User that is created: its admin bit is not set.
unfoldable pub new_user : NewUser → Text → User
new_user req hash = record {
  metadata = metadata_of req.username [] [];
  spec = record {
    pubkeys = [];
    oidc_subject = [];
    display_name = req.display_name;
    quota = none;
    password_hash = hash;
    admin = false;
  };
  status = record { dev_pod_count = 0 };
}

unfoldable pub has_valid_name : Text → Bool
has_valid_name username = elim (map_username [] username) [ inl err ↦ false | inr name ↦ true ]

unfoldable pub create_user :
    Bcrypt → LoginSettings → Session → Option NewUser → Outcome AccountError User
unfolding hash_password new_user has_valid_name
create_user tool cfg sess body = do
  _ ← refuse_if (not sess.admin) admin_only
  _ ← refuse_if (not cfg.password_auth) password_disabled
  req ← or_refuse body malformed
  _ ← refuse_if (not (has_valid_name req.username)) bad_name
  hash ← hash_password tool req.password cfg.password_min_length
  passed (new_user req hash)

pub record QuotaPatch : Type 0 where
  pub max_dev_pods : Option ℤ
  pub cpu : Text
  pub memory : Text
  pub gpu : Text
  pub storage : Text

abbrev pub resource_gpu : Text
resource_gpu = bytes "nvidia.com/gpu"

-- One entry of the map of resources; an empty text is left out.
unfoldable pub add_quantity : Bcrypt → Text → Text → Dict ℤ → Outcome AccountError (Dict ℤ)
add_quantity tool name value compute =
    if is_empty value
    then passed compute
    else do n ← or_refuse (tool.parse_quantity value) bad_quota; passed (insert name n compute)

unfoldable pub storage_quantity : Bcrypt → Text → Outcome AccountError (Option ℤ)
storage_quantity tool value =
    if is_empty value
    then passed none
    else do n ← or_refuse (tool.parse_quantity value) bad_quota; passed (some n)

abbrev pub nonempty : Dict ℤ → Option (Dict ℤ)
nonempty [] = none
nonempty (e ∷ m) = some (e ∷ m)

-- quotaPatch.build: nothing when all fields are empty.
unfoldable pub build_quota : Bcrypt → QuotaPatch → Outcome AccountError (Option UserQuota)
unfolding add_quantity storage_quantity
build_quota tool p = do
  a ← add_quantity tool cpu p.cpu []
  b ← add_quantity tool memory p.memory a
  compute ← add_quantity tool resource_gpu p.gpu b
  storage ← storage_quantity tool p.storage
  passed (
      if is_none p.max_dev_pods && is_none (nonempty compute) && is_none storage
      then none
      else some
          (record { max_dev_pods = p.max_dev_pods; compute = nonempty compute; storage = storage }))

pub record UserPatch : Type 0 where
  pub password : Option Text
  pub display_name : Option Text
  pub quota : Option QuotaPatch

unfoldable pub patch_password :
    Bcrypt → LoginSettings → Option Text → User → Outcome AccountError User
unfolding hash_password
patch_password tool cfg none u = passed u
patch_password tool cfg (some pw) u = do
  _ ← refuse_if (not cfg.password_auth) password_disabled
  hash ← hash_password tool pw cfg.password_min_length
  passed (with_password u hash)

abbrev pub patch_display_name : Option Text → User → User
patch_display_name none u = u
patch_display_name (some name) u = with_display_name u name

unfoldable pub patch_quota : Bcrypt → Option QuotaPatch → User → Outcome AccountError User
unfolding build_quota
patch_quota tool none u = passed u
patch_quota tool (some p) u = do quota ← build_quota tool p; passed (with_quota u quota)

unfoldable pub patch_user :
    Bcrypt → LoginSettings → Session → Option UserPatch → GetResult User → Outcome AccountError User
unfolding patch_password patch_quota
patch_user tool cfg sess body got = do
  _ ← refuse_if (not sess.admin) admin_only
  req ← or_refuse body malformed
  u ← (elim got [
    | found u ↦ passed u
    | not_found ↦ refused no_user
    | get_failed err ↦ refused unreadable
  ])
  changed ← patch_password tool cfg req.password u
  patch_quota tool req.quota (patch_display_name req.display_name changed)
