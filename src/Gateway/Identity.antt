-- ===== src/Gateway/Identity.antt =====
-- internal/gateway/identity.go, and the AuthPath of internal/gateway/audit.go. The ssh package is a
-- parameter.
mod Tests
use devpods.Prelude.{
  ℕ, zero, suc, ◌+◌, ◌-◌, ◌*◌, ◌/◌, ◌%◌, ◌^◌, ◌≤◌, ◌<◌, ◌≡◌, refl, sym, ap, ◌∙◌, subst, ◌≢◌, ◌↔◌,
  ◌⊎◌, inl, inr, Bool, true, false, not, ◌&&◌, ◌||◌, Option, none, some, List, [], ◌∷◌, ◌++◌, map,
  append_assoc, append-nil, arith, ltb, leb, ◌==◌, if◌then◌else◌, ltb→lt, lt→ltb, leb→le, le→leb,
  ==_iff, tests, Bool-cases, Option-cases, and-true, is_none, length, length-append, all, All,
  All-append, Text, bytes, text_eq, text_eq_refl, text_eq_iff, Text-cases, is_empty, Dict, lookup,
  insert, remove, lookup-insert, lookup-remove,
}
use devpods.Api.Kube.{GetResult, found, not_found, get_failed}
use devpods.Api.Users.{User}

-- What the gateway uses of golang.org/x/crypto/ssh: a key's wire form, its SHA256 fingerprint, and
-- the parser of an authorized_keys line.
pub record SshLib : Type 1 where
  pub Key : Type 0
  pub marshal : Key → Text
  pub fingerprint : Key → Text
  pub parse_authorized_key : Text → Option Key

-- What Resolve returns: the keys of ResolveResult with ServedStale, ErrIdentityNotFound with
-- ServedStale, or any other error.
pub data Resolution (K : Type 0) : Type 0 where
  resolved : List K → Bool → Resolution K
  unknown_identity : Bool → Resolution K
  source_error : Text → Resolution K

pub record IdentitySource (K : Type 0) : Type 0 where
  pub name : Text
  pub resolve : Text → Resolution K

-- How a session was authenticated; `no_kind` is the empty string.
pub data AuthKind : Type 0 where
  no_kind direct trusted_proxy : AuthKind

pub record AuthPath : Type 0 where
  pub kind : AuthKind
  pub alias : Text
  pub user : Text
  pub pod : Text
  pub source : Text
  pub served_stale : Bool
  pub last_source_err : Text

module _ (ssh : SshLib) where
  open ssh use {Key, parse_authorized_key}

  -- The loop over the lines of an identity, in crdSource.Resolve and in liveLookup: a line that does
  -- not parse is dropped.
  unfoldable pub parse_keys : List Text → List Key
  parse_keys [] = []
  parse_keys (line ∷ lines) =
      let rest = parse_keys lines in
      elim (parse_authorized_key line) [ none ↦ rest | some key ↦ key ∷ rest ]

  -- crdSource.Resolve, from what the read of the User returns.
  unfoldable pub crd_resolve : (Text → GetResult User) → Text → Resolution Key
  unfolding parse_keys
  crd_resolve get username = elim (get username) [
    | found u ↦ resolved (parse_keys u.spec.pubkeys) false
    | not_found ↦ unknown_identity false
    | get_failed err ↦ source_error (bytes "crd get user \"" ++ username ++ bytes "\": " ++ err)
  ]

  unfoldable pub crd_source : (Text → GetResult User) → IdentitySource Key
  unfolding crd_resolve
  crd_source get = record { name = bytes "crd"; resolve = crd_resolve get }
