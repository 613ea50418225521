-- ===== src/Gateway/Auth/Chain.antt =====
-- The loop of Authenticate over the identity sources.
use devpods.Prelude.{
  text_eq_iff, sym, subst, ◌⊎◌, ◌↔◌, ◌≢◌, Text, ◌≡◌, refl, ap, ◌∙◌, inl, inr, Bool, true, false,
  ◌||◌, List, [], ◌∷◌, ◌++◌, arith, if◌then◌else◌, Bool-cases, All, bytes,
}
use mathlib.Core.Bool.{false≢true, true≢false, or_assoc}
use devpods.Gateway.Identity.{
  SshLib, Resolution, unknown_identity, resolved, source_error, IdentitySource, AuthPath,
}
use devpods.Gateway.Auth.{matches_any_parsed, run_chain}

resolved-injective :
    {K : Type 0} {ks js : List K} {a b : Bool} → resolved ks a ≡ resolved js b → ks ≡ js
resolved-injective h = cc

unknown-ne-resolved :
    {K : Type 0} {ks : List K} {a b : Bool}
    → ◌≢◌ {A = Resolution K} (unknown_identity a) (resolved ks b)
unknown-ne-resolved h = cc

error-ne-resolved :
    {K : Type 0} {ks : List K} {e : Text} {b : Bool}
    → ◌≢◌ {A = Resolution K} (source_error e) (resolved ks b)
error-ne-resolved h = cc

module _ (ssh : SshLib) (user : Text) (key : ssh.Key) where
  open ssh use {Key}

  -- The source knows the user, whatever its keys.
  abbrev pub knows : IdentitySource Key → Bool
  knows src = elim (src.resolve user) [ resolved keys stale ↦ true | _ ↦ false ]

  -- A key of the list has the wire form of the offered one.
  abbrev pub HasKey : List Key → Type 0
  HasKey [] = ⊥
  HasKey (k ∷ ks) = (ssh.marshal k ≡ ssh.marshal key) ⊎ HasKey ks

  -- The source has the offered key for the user.
  abbrev pub Authorizes : IdentitySource Key → Type 0
  Authorizes src =
      (keys : List Key) × (stale : Bool) × (src.resolve user ≡ resolved keys stale) × HasKey keys

  matches_any_parsed_iff : (ks : List Key) → (matches_any_parsed ssh key ks ≡ true) ↔ HasKey ks
  unfolding matches_any_parsed
  matches_any_parsed_iff [] = (λ h. absurd (false≢true h), λ h. absurd h)
  matches_any_parsed_iff (k ∷ ks) =
      ground (arith, text_eq_iff (ssh.marshal k) (ssh.marshal key), matches_any_parsed_iff ks)

  abbrev pub authorizes : IdentitySource Key → Bool
  authorizes src = elim (src.resolve user) [
    | resolved keys stale ↦ matches_any_parsed ssh key keys
    | _ ↦ false
  ]

  authorizes_cases :
      (src : IdentitySource Key) (r : Resolution Key)
      → src.resolve user ≡ r
      → (authorizes src ≡ true) ↔ Authorizes src
  authorizes_cases src (resolved keys stale) e =
      let (to, from) = matches_any_parsed_iff keys in
      (
        λ h. (keys, stale, e, to (rw (authorizes, e) at h)),
        λ (ks, st, same, has).
            rw (authorizes, e) (from (subst HasKey (resolved-injective (sym same ∙ e)) has)),
      )
  authorizes_cases src (unknown_identity stale) e = (
    λ h. absurd (false≢true (rw (authorizes, e) at h)),
    λ (ks, st, same, has). absurd (unknown-ne-resolved (sym e ∙ same)),
  )
  authorizes_cases src (source_error err) e = (
    λ h. absurd (false≢true (rw (authorizes, e) at h)),
    λ (ks, st, same, has). absurd (error-ne-resolved (sym e ∙ same)),
  )

  pub authorizes_iff : (src : IdentitySource Key) → (authorizes src ≡ true) ↔ Authorizes src
  authorizes_iff src = authorizes_cases src (src.resolve user) refl

  unauthorized : (src : IdentitySource Key) → authorizes src ≡ false → ¬ Authorizes src
  unauthorized src miss a = false≢true (sym miss ∙ (authorizes_iff src).1 a)

  abbrev pub serves_stale : IdentitySource Key → Bool
  serves_stale src = elim (src.resolve user) [ resolved keys stale ↦ stale | _ ↦ false ]

  -- The message that a failing source leaves in the audit row; a source that answers leaves the last.
  abbrev pub error_or : Text → IdentitySource Key → Text
  error_or last src = elim (src.resolve user) [
    | source_error err ↦ src.name ++ bytes ": " ++ err
    | _ ↦ last
  ]

  run_chain-cons :
      (src : IdentitySource Key) (srcs : List (IdentitySource Key)) (known : Bool) (path : AuthPath)
      → run_chain ssh user key (src ∷ srcs) known path ≡ (
          if authorizes src
          then record {
            matched = true;
            any_known = true;
            path = record path { source = src.name; served_stale = serves_stale src };
          }
          else run_chain ssh user key srcs
              (known || knows src)
              (record path { last_source_err = error_or path.last_source_err src }))
  unfolding run_chain
  run_chain-cons src srcs known path = ground arith

  -- How a matching loop found its source: none of those before it has the key, and the path names it.
  abbrev pub FoundBy : List (IdentitySource Key) → AuthPath → Type 0
  FoundBy srcs path =
      (before : List (IdentitySource Key)) × (src : IdentitySource Key) × (after : List
        (IdentitySource Key))
      × (srcs ≡ before ++ src ∷ after)
      × All (λ s. ¬ Authorizes s) before
      × Authorizes src
      × (path.source ≡ src.name)
      × (path.served_stale ≡ serves_stale src)

  -- A loop that matches stops at the first source that has the key for the user.
  pub run_chain-FoundBy :
      (srcs : List (IdentitySource Key)) (known : Bool) (path : AuthPath)
      → (run_chain ssh user key srcs known path).matched ≡ true
      → FoundBy srcs (run_chain ssh user key srcs known path).path
  run_chain-FoundBy [] known path h = unfold run_chain in absurd (false≢true h)
  run_chain-FoundBy (src ∷ srcs) known path h = elim (Bool-cases (authorizes src)) [
    | inl here ↦
        rw (run_chain-cons src srcs known path, here)
          ([], src, srcs, refl, tt, (authorizes_iff src).0 here, refl, refl)
    | inr miss ↦
        rw (run_chain-cons src srcs known path, miss)
          (let (before, s, after, e, old, new, n, st) =
              run_chain-FoundBy srcs (known || knows src)
                (record path { last_source_err = error_or path.last_source_err src })
                (rw (run_chain-cons src srcs known path, miss) at h) in
            (src ∷ before, s, after, ap (◌∷◌ src) e, (unauthorized src miss, old), new, n, st))
  ]

  -- Whatever the sources answer, the path keeps its kind, its alias, its user and its pod.
  pub run_chain_keeps :
      (srcs : List (IdentitySource Key)) (known : Bool) (path : AuthPath)
      → let r = (run_chain ssh user key srcs known path).path in
        (r.kind ≡ path.kind) × (r.alias ≡ path.alias) × (r.user ≡ path.user) × (r.pod ≡ path.pod)
  run_chain_keeps [] known path = unfold run_chain in (refl, refl, refl, refl)
  run_chain_keeps (src ∷ srcs) known path = elim (Bool-cases (authorizes src)) [
    | inl here ↦ rw (run_chain-cons src srcs known path, here) (refl, refl, refl, refl)
    | inr miss ↦
        rw (run_chain-cons src srcs known path, miss)
          (run_chain_keeps srcs (known || knows src)
            (record path { last_source_err = error_or path.last_source_err src }))
  ]

  -- The loop matches as soon as one source has the key for the user.
  pub run_chain-matched :
      (before : List (IdentitySource Key)) (src : IdentitySource Key)
      (after : List (IdentitySource Key)) (known : Bool) (path : AuthPath)
      → Authorizes src
      → (run_chain ssh user key (before ++ src ∷ after) known path).matched ≡ true
  run_chain-matched [] src after known path h =
      rw (run_chain-cons src after known path, (authorizes_iff src).1 h) refl
  run_chain-matched (s ∷ before) src after known path h = elim (Bool-cases (authorizes s)) [
    | inl here ↦ rw (run_chain-cons s (before ++ src ∷ after) known path, here) refl
    | inr miss ↦
        rw (run_chain-cons s (before ++ src ∷ after) known path, miss)
          (run_chain-matched before src after (known || knows s)
            (record path { last_source_err = error_or path.last_source_err s }) h)
  ]

  abbrev pub any_knows : List (IdentitySource Key) → Bool
  any_knows [] = false
  any_knows (src ∷ srcs) = knows src || any_knows srcs

  -- The message of the last source that failed.
  abbrev pub last_error : Text → List (IdentitySource Key) → Text
  last_error last [] = last
  last_error last (src ∷ srcs) = last_error (error_or last src) srcs

  -- A loop that does not match has asked every source: none has the key, `anyKnown` says whether one
  -- knows the user, and of the path only the message of the last failure has changed.
  pub run_chain-unmatched :
      (srcs : List (IdentitySource Key)) (known : Bool) (path : AuthPath)
      → (run_chain ssh user key srcs known path).matched ≡ false
      → All (λ s. ¬ Authorizes s) srcs
        × ((run_chain ssh user key srcs known path).any_known ≡ (known || any_knows srcs))
        × ((run_chain ssh user key srcs known path).path
            ≡ record path { last_source_err = last_error path.last_source_err srcs })
  run_chain-unmatched [] known path h = unfold run_chain in (tt, ground arith, refl)
  run_chain-unmatched (src ∷ srcs) known path h = elim (Bool-cases (authorizes src)) [
    | inl here ↦ absurd (true≢false (rw (run_chain-cons src srcs known path, here) at h))
    | inr miss ↦
        let (old, k, p) =
          run_chain-unmatched srcs (known || knows src)
            (record path { last_source_err = error_or path.last_source_err src })
            (rw (run_chain-cons src srcs known path, miss) at h) in
        rw (run_chain-cons src srcs known path, miss)
          ((unauthorized src miss, old), k ∙ or_assoc known (knows src) (any_knows srcs), p)
  ]
