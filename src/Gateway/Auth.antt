-- ===== src/Gateway/Auth.antt =====
-- internal/gateway/auth.go. A call of Authenticate asks each source at most once, so a source is the
-- function that answers during that call; `get` is the read of a DevPod by its resource name.
pub mod Chain
pub mod Finalized
pub mod Outcomes
mod Tests
use devpods.Prelude.{
  ℕ, zero, suc, ◌+◌, ◌-◌, ◌*◌, ◌/◌, ◌%◌, ◌^◌, ◌≤◌, ◌<◌, ◌≡◌, refl, sym, ap, ◌∙◌, subst, ◌≢◌, ◌↔◌,
  ◌⊎◌, inl, inr, Bool, true, false, not, ◌&&◌, ◌||◌, Option, none, some, List, [], ◌∷◌, ◌++◌, map,
  append_assoc, append-nil, arith, ltb, leb, ◌==◌, if◌then◌else◌, ltb→lt, lt→ltb, leb→le, le→leb,
  ==_iff, tests, Bool-cases, Option-cases, and-true, is_none, length, length-append, all, All,
  All-append, Text, bytes, text_eq, text_eq_refl, text_eq_iff, Text-cases, is_empty, Dict, lookup,
  insert, remove, lookup-insert, lookup-remove,
}
use devpods.Api.Kube.{GetResult, found, not_found, get_failed}
use devpods.Api.DevPods.{DevPod, is_running}
use devpods.Gateway.LoginName.{parse_login_name, devpod_resource_name}
use devpods.Gateway.Identity.{
  SshLib, Resolution, resolved, unknown_identity, source_error, IdentitySource, no_kind, direct,
  trusted_proxy, AuthPath,
}

-- The sentinel errors, and the wrapped error of a failed read.
pub data AuthErr : Type 0 where
  user_not_found pubkey_mismatch devpod_not_found devpod_not_ready access_denied login_name_format :
      AuthErr
  get_devpod : Text → AuthErr

pub record AuthResult : Type 0 where
  pub user : Text
  pub devpod_name : Text
  pub endpoint : Text
  pub auth_path : AuthPath

-- `rejected` is the *AuthError, with the path as far as it was filled in.
pub data AuthOutcome : Type 0 where
  accepted : AuthResult → AuthOutcome
  rejected : AuthErr → AuthPath → AuthOutcome

abbrev pub empty_path : AuthPath
empty_path = record {
  kind = no_kind;
  alias = [];
  user = [];
  pod = [];
  source = [];
  served_stale = false;
  last_source_err = [];
}

unfoldable pub is_collaborator : List Text → Text → Bool
is_collaborator [] user = false
is_collaborator (c ∷ cs) user = text_eq c user || is_collaborator cs user

unfoldable pub access_allowed : DevPod → Text → Bool
access_allowed dp user =
    if text_eq dp.spec.owner user then true else is_collaborator dp.spec.collaborators user

-- The checks that every authenticated session passes.
unfoldable pub finalize : DevPod → Text → AuthPath → AuthOutcome
unfolding is_running
finalize dp user ap =
    if not (access_allowed dp user)
    then rejected access_denied ap
    else if not (is_running dp.status.phase) || is_empty dp.status.endpoint
    then rejected devpod_not_ready ap
    else accepted (record {
      user = user;
      devpod_name = dp.metadata.name;
      endpoint = dp.status.endpoint;
      auth_path = ap;
    })

-- What the loop over the sources leaves behind: `matched`, `anyKnown` and the path.
pub record ChainResult : Type 0 where
  pub matched : Bool
  pub any_known : Bool
  pub path : AuthPath

-- The owner-scoped name first, then the bare name.
unfoldable pub find_devpod : (Text → GetResult DevPod) → Text → Text → GetResult DevPod
find_devpod get user pod = elim (get (devpod_resource_name user pod)) [
  | not_found ↦ get pod
  | found dp ↦ found dp
  | get_failed err ↦ get_failed err
]

module _ (ssh : SshLib) where
  open ssh use {Key, marshal, fingerprint}

  unfoldable pub matches_any_parsed : Key → List Key → Bool
  matches_any_parsed offered [] = false
  matches_any_parsed offered (k ∷ ks) =
      text_eq (marshal k) (marshal offered) || matches_any_parsed offered ks

  -- The loop over the sources; the last two arguments are `anyKnown` and the path.
  unfoldable pub run_chain : Text → Key → List (IdentitySource Key) → Bool → AuthPath → ChainResult
  run_chain user key [] known ap = record { matched = false; any_known = known; path = ap }
  run_chain user key (src ∷ srcs) known ap = elim (src.resolve user) [
    | unknown_identity stale ↦ run_chain user key srcs known ap
    | source_error err ↦
        run_chain user key srcs known
          (record ap { last_source_err = src.name ++ bytes ": " ++ err })
    | resolved keys stale ↦ elim (matches_any_parsed key keys) [
      | true ↦ record {
        matched = true;
        any_known = true;
        path = record ap { source = src.name; served_stale = stale };
      }
      | false ↦ run_chain user key srcs true ap
    ]
  ]

  unfoldable pub authenticate_devpod :
      Dict Text → List (IdentitySource Key) → Key → Text → DevPod → AuthPath → AuthOutcome
  authenticate_devpod proxy_keys sources key user dp ap =
      elim (lookup (fingerprint key) proxy_keys) [
        | some alias ↦ finalize dp user (record ap { kind = trusted_proxy; alias = alias })
        | none ↦
            let res = run_chain user key sources false (record ap { kind = direct }) in
            if not res.matched
            then rejected (if res.any_known then pubkey_mismatch else user_not_found) res.path
            else finalize dp user res.path
      ]

  unfoldable pub authenticate :
      (Text → GetResult DevPod) → Dict Text → List (IdentitySource Key) → Text → Key → AuthOutcome
  authenticate get proxy_keys sources login key = elim (parse_login_name login) [
    | none ↦ rejected login_name_format empty_path
    | some (user, pod) ↦
        let ap = record empty_path { user = user; pod = pod } in
        elim (find_devpod get user pod) [
          | not_found ↦ rejected devpod_not_found ap
          | get_failed err ↦ rejected (get_devpod err) ap
          | found dp ↦ authenticate_devpod proxy_keys sources key user dp ap
        ]
  ]
