-- ===== src/Gateway/Auth/Outcomes.antt =====
-- Who is let in by Authenticate, and why the others are not.
use mathlib.Core.Option.{none-ne-some}
use devpods.Prelude.{
  ◌≡◌, refl, sym, ◌∙◌, ◌⊎◌, inl, inr, true, false, List, [], ◌∷◌, arith, Bool-cases, Text, Dict,
  lookup, none, Option-cases, some, All, if◌then◌else◌, ap, ◌++◌,
}
use devpods.Api.DevPods.{DevPod}
use devpods.Gateway.Identity.{SshLib, IdentitySource, direct, trusted_proxy, AuthPath}
use devpods.Gateway.LoginName.{parse_login_name, devpod_resource_name}
use devpods.Gateway.LoginName.Laws.{IsLoginPart, parse_login_name_iff}
use devpods.Gateway.Auth.{
  user_not_found, pubkey_mismatch, devpod_not_found, devpod_not_ready, access_denied,
  login_name_format, get_devpod, AuthResult, AuthOutcome, accepted, rejected, finalize, run_chain,
  authenticate_devpod, find_devpod, authenticate, ChainResult,
}
use devpods.Api.Kube.{GetResult, not_found, found, get_failed, GetResult-cases}
use devpods.Gateway.Auth.Chain.{
  FoundBy, Authorizes, any_knows, last_error, run_chain_keeps, run_chain-FoundBy,
  run_chain-unmatched, run_chain-matched,
}
use devpods.Gateway.Auth.Finalized.{
  IsAllowed, IsReady, access_allowed_iff, Finalized, not_ready_iff, finalize_lem,
}

-- A login names an owner and a pod: each is of 1 to 32 lowercase letters, digits and dashes, and a plus sign
-- lies between them.
abbrev pub IsLogin : Text → Text → Text → Type 0
IsLogin login user pod = (login ≡ user ++ b'+' ∷ pod) × IsLoginPart user × IsLoginPart pod

-- What the caller of Authenticate supplies: the reads, the proxy keys, the sources, the login and
-- the offered key.
module _ (ssh : SshLib) (get : Text → GetResult DevPod) (proxy_keys : Dict Text)
    (sources : List (IdentitySource ssh.Key)) (key : ssh.Key) where
  open ssh use {fingerprint}

  -- The key is proven to be the user's: it is a trusted proxy's, or the first source that has it
  -- for the user is named in the path.
  abbrev pub IsProven : Text → AuthPath → Type 0
  IsProven user path =
      ((path.kind ≡ trusted_proxy) × (lookup (fingerprint key) proxy_keys ≡ some path.alias))
      ⊎ ((path.kind ≡ direct)
          × (lookup (fingerprint key) proxy_keys ≡ none)
          × FoundBy ssh user key sources path)

  -- Nobody vouches for the key.
  abbrev pub IsUnproven : Text → AuthPath → Type 0
  IsUnproven user path =
      (lookup (fingerprint key) proxy_keys ≡ none)
      × All (λ s. ¬ Authorizes ssh user key s) sources
      × (path.last_source_err ≡ last_error ssh user key [] sources)

  abbrev pub ExplainedAt : Text → DevPod → AuthOutcome → Type 0
  ExplainedAt user dp (accepted r) =
      IsProven user r.auth_path
      × IsAllowed dp user
      × IsReady dp
      × (r.user ≡ user)
      × (r.devpod_name ≡ dp.metadata.name)
      × (r.endpoint ≡ dp.status.endpoint)
  ExplainedAt user dp (rejected user_not_found path) =
      IsUnproven user path × (any_knows ssh user key sources ≡ false)
  ExplainedAt user dp (rejected pubkey_mismatch path) =
      IsUnproven user path × (any_knows ssh user key sources ≡ true)
  ExplainedAt user dp (rejected access_denied path) = IsProven user path × (¬ IsAllowed dp user)
  ExplainedAt user dp (rejected devpod_not_ready path) =
      IsProven user path × IsAllowed dp user × (¬ IsReady dp)
  ExplainedAt user dp (rejected _ path) = ⊥

  -- The DevPod of a login: the one under the name "<user>-<pod>", or, when there is none, the one under
  -- the bare name.
  abbrev pub IsAt : Text → Text → DevPod → Type 0
  IsAt user pod dp =
      (get (user ++ b'-' ∷ pod) ≡ found dp)
      ⊎ ((get (user ++ b'-' ∷ pod) ≡ not_found) × (get pod ≡ found dp))

  -- The read that fails, in the same order.
  abbrev pub FailsAt : Text → Text → Text → Type 0
  FailsAt user pod err =
      (get (user ++ b'-' ∷ pod) ≡ get_failed err)
      ⊎ ((get (user ++ b'-' ∷ pod) ≡ not_found) × (get pod ≡ get_failed err))

  -- The reason of every outcome.
  abbrev pub Explained : Text → AuthOutcome → Type 0
  Explained login (rejected login_name_format path) = (user pod : Text) → ¬ IsLogin login user pod
  Explained login (rejected devpod_not_found path) =
      (user : Text) × (pod : Text) × IsLogin login user pod
      × (get (user ++ b'-' ∷ pod) ≡ not_found)
      × (get pod ≡ not_found)
  Explained login (rejected (get_devpod err) path) =
      (user : Text) × (pod : Text) × IsLogin login user pod × FailsAt user pod err
  Explained login outcome =
      (user : Text) × (pod : Text) × (dp : DevPod) × IsLogin login user pod
      × IsAt user pod dp
      × ExplainedAt user dp outcome

  finalize-ExplainedAt :
      (user : Text) (dp : DevPod) (path : AuthPath) (o : AuthOutcome)
      → IsProven user path
      → Finalized dp user path o
      → ExplainedAt user dp o
  finalize-ExplainedAt user dp path (accepted r) p (a, ready, e) =
      rw e (p, a, ready, refl, refl, refl)
  finalize-ExplainedAt user dp path (rejected devpod_not_ready q) p (a, late, e) = rw e (p, a, late)
  finalize-ExplainedAt user dp path (rejected access_denied q) p (a, e) = rw e (p, a)
  finalize-ExplainedAt user dp path (rejected _ q) p h = absurd h

  unproven :
      (user : Text) (dp : DevPod) (r : ChainResult)
      → IsUnproven user r.path
      → r.any_known ≡ any_knows ssh user key sources
      → ExplainedAt user dp
          (rejected (if r.any_known then pubkey_mismatch else user_not_found) r.path)
  unproven user dp r u k = elim (Bool-cases r.any_known) [
    | inl e ↦ rw e (u, sym k ∙ e)
    | inr e ↦ rw e (u, sym k ∙ e)
  ]

  authenticate_devpod-ExplainedAt :
      (user : Text) (dp : DevPod) (path : AuthPath)
      → path.last_source_err ≡ []
      → ExplainedAt user dp (authenticate_devpod ssh proxy_keys sources key user dp path)
  unfolding authenticate_devpod
  authenticate_devpod-ExplainedAt user dp path clean =
      let start = record path { kind = direct } in
      elim (Option-cases (lookup (fingerprint key) proxy_keys)) [
        | inr (alias, proxy) ↦
            rw (authenticate_devpod, proxy)
              (finalize-ExplainedAt user dp _ _ (inl (refl, proxy)) (finalize_lem dp user _))
        | inl other ↦ elim (Bool-cases (run_chain ssh user key sources false start).matched) [
          | inl hit ↦
              rw (authenticate_devpod, other, hit)
                (finalize-ExplainedAt user dp _ _
                  (inr (
                    (run_chain_keeps ssh user key sources false start).0,
                    other,
                    run_chain-FoundBy ssh user key sources false start hit,
                  ))
                  (finalize_lem dp user _))
          | inr miss ↦
              let (none_has, known, p) =
                run_chain-unmatched ssh user key sources false start miss in
              rw (authenticate_devpod, other, miss)
                (unproven user dp (run_chain ssh user key sources false start)
                  (
                    other,
                    none_has,
                    ap (λ q. q.last_source_err) p
                        ∙ ap (λ e. last_error ssh user key e sources) clean,
                  )
                  known)
        ]
      ]

  find_devpod-not_found :
      (user pod : Text)
      → find_devpod get user pod ≡ not_found
      → (get (user ++ b'-' ∷ pod) ≡ not_found) × (get pod ≡ not_found)
  unfolding find_devpod devpod_resource_name
  find_devpod-not_found user pod h = ground arith

  find_devpod-get_failed :
      (user pod err : Text) → find_devpod get user pod ≡ get_failed err → FailsAt user pod err
  unfolding find_devpod devpod_resource_name
  find_devpod-get_failed user pod err h = ground arith

  find_devpod-found :
      (user pod : Text) (dp : DevPod) → find_devpod get user pod ≡ found dp → IsAt user pod dp
  unfolding find_devpod devpod_resource_name
  find_devpod-found user pod dp h = ground arith

  found_at :
      (user pod : Text) (dp : DevPod) → IsAt user pod dp → find_devpod get user pod ≡ found dp
  unfolding find_devpod devpod_resource_name
  found_at user pod dp (inl h) = rw (find_devpod, h) refl
  found_at user pod dp (inr (h, k)) = rw (find_devpod, h) k

  at_devpod :
      (login user pod : Text) (dp : DevPod) (o : AuthOutcome)
      → IsLogin login user pod
      → IsAt user pod dp
      → ExplainedAt user dp o
      → Explained login o
  at_devpod login user pod dp (accepted r) e f h = (user, pod, dp, e, f, h)
  at_devpod login user pod dp (rejected login_name_format path) e f h = absurd h
  at_devpod login user pod dp (rejected devpod_not_found path) e f h = absurd h
  at_devpod login user pod dp (rejected (get_devpod err) path) e f h = absurd h
  at_devpod login user pod dp (rejected _ path) e f h = (user, pod, dp, e, f, h)

  -- Every outcome of Authenticate has its reason. It accepts only if the login names an owner and a pod, the DevPod is
  -- found under the name of owner and pod or, when that is missing, under the bare one, the key is a
  -- trusted proxy's or the first source that has it for the user is named in the path, the user is
  -- the owner or a collaborator, and the DevPod runs and has an endpoint, which is the result's.
  -- Each error says which of these failed: user_not_found that no source knows the user,
  -- pubkey_mismatch that one does and none has the key, and both carry the message of the last
  -- source that failed.
  pub authenticate-Explained :
      (login : Text) → Explained login (authenticate ssh get proxy_keys sources login key)
  unfolding authenticate
  authenticate-Explained login = elim (Option-cases (parse_login_name login)) [
    | inl e ↦
        rw (authenticate, e)
          (λ user pod l.
            none-ne-some (user, pod) (sym e ∙ (parse_login_name_iff login user pod).1 l))
    | inr ((user, pod), e) ↦
        let login_ok = (parse_login_name_iff login user pod).0 e in
        elim (GetResult-cases (find_devpod get user pod)) [
          | inl (dp, f) ↦
              rw (authenticate, e, f)
                (at_devpod login user pod dp _ login_ok (find_devpod-found user pod dp f)
                  (authenticate_devpod-ExplainedAt user dp _ refl))
          | inr (inl f) ↦
              let (scoped, bare) = find_devpod-not_found user pod f in
              rw (authenticate, e, f) (user, pod, login_ok, scoped, bare)
          | inr (inr (err, f)) ↦
              rw (authenticate, e, f) (user, pod, login_ok, find_devpod-get_failed user pod err f)
        ]
  ]

  finalize-accepted :
      (user : Text) (dp : DevPod) (path : AuthPath)
      → IsAllowed dp user
      → IsReady dp
      → (r : AuthResult) × (finalize dp user path ≡ accepted r)
  unfolding finalize
  finalize-accepted user dp path a ready = (
    record {
      user = user;
      devpod_name = dp.metadata.name;
      endpoint = dp.status.endpoint;
      auth_path = path;
    },
    rw (finalize, (access_allowed_iff dp user).1 a, (not_ready_iff _ _).1 ready) refl,
  )

  -- The key is a trusted proxy's, or some source of the chain has it for the user.
  abbrev pub IsVouchedFor : Text → Type 0
  IsVouchedFor user =
      ((alias : Text) × (lookup (fingerprint key) proxy_keys ≡ some alias))
      ⊎ ((before : List (IdentitySource ssh.Key)) × (src : IdentitySource ssh.Key) × (after : List
            (IdentitySource ssh.Key))
          × (sources ≡ before ++ src ∷ after)
          × Authorizes ssh user key src)

  authenticate_devpod-accepts :
      (user : Text) (dp : DevPod) (path : AuthPath)
      → IsAllowed dp user
      → IsReady dp
      → IsVouchedFor user
      → (r : AuthResult) × (authenticate_devpod ssh proxy_keys sources key user dp path
          ≡ accepted r)
  unfolding authenticate_devpod
  authenticate_devpod-accepts user dp path a ready way =
      elim (Option-cases (lookup (fingerprint key) proxy_keys)) [
        | inr (alias, proxy) ↦ rw (authenticate_devpod, proxy) (finalize-accepted user dp _ a ready)
        | inl other ↦ elim way [
          | inl (alias, proxy) ↦ absurd (none-ne-some alias (sym other ∙ proxy))
          | inr (before, src, after, split, has) ↦
              rw
                (
                  authenticate_devpod,
                  other,
                  split,
                  run_chain-matched ssh user key before src after false
                      (record path { kind = direct }) has,
                )
                (finalize-accepted user dp _ a ready)
        ]
      ]

  -- Whoever may use a ready DevPod, which the login names by its owner and pod or, failing that, by the
  -- bare name, is let in: by a trusted proxy's key, and by a key that some source has for the user,
  -- wherever the key stands in the source's list and the source in the chain.
  pub authenticate-accepts :
      (login user pod : Text) (dp : DevPod)
      → IsLogin login user pod
      → IsAt user pod dp
      → IsAllowed dp user
      → IsReady dp
      → IsVouchedFor user
      → (r : AuthResult) × (authenticate ssh get proxy_keys sources login key ≡ accepted r)
  unfolding authenticate
  authenticate-accepts login user pod dp e at a ready way =
      rw (authenticate, (parse_login_name_iff login user pod).1 e, found_at user pod dp at)
        (authenticate_devpod-accepts user dp _ a ready way)
