-- ===== src/Api/Users.antt =====
-- api/v1alpha1/user_types.go.
use devpods.Prelude.{ℤ, ℕ, Bool, Option, List, Text, Dict}
use devpods.Api.Kube.{ObjectMeta}

pub record UserQuota : Type 0 where
  pub max_dev_pods : Option ℤ
  pub compute : Option (Dict ℤ)
  pub storage : Option ℤ

pub record UserSpec : Type 0 where
  pub pubkeys : List Text
  pub oidc_subject : Text
  pub display_name : Text
  pub quota : Option UserQuota
  pub password_hash : Text
  pub admin : Bool

pub record UserStatus : Type 0 where
  pub dev_pod_count : ℕ

pub record User : Type 0 where
  pub metadata : ObjectMeta
  pub spec : UserSpec
  pub status : UserStatus
