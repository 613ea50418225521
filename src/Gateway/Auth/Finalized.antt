-- ===== src/Gateway/Auth/Finalized.antt =====
-- Who may enter a DevPod, and what finalize answers.
use mathlib.Core.Bool.{false≢true}
use devpods.Prelude.{
  ◌≡◌, refl, sym, ◌∙◌, ◌≢◌, ◌↔◌, ◌⊎◌, inl, inr, true, false, not, ◌||◌, List, [], ◌∷◌, arith,
  Bool-cases, Text, text_eq_iff, is_empty,
}
use devpods.Api.DevPods.{DevPod, DevPodPhase, running, is_running}
use devpods.Gateway.Identity.{AuthPath}
use devpods.Gateway.Auth.{
  devpod_not_ready, access_denied, AuthOutcome, accepted, rejected, is_collaborator, access_allowed,
  finalize,
}

abbrev IsOneOf : List Text → Text → Type 0
IsOneOf [] user = ⊥
IsOneOf (c ∷ cs) user = (c ≡ user) ⊎ IsOneOf cs user

-- The owner or a collaborator.
abbrev pub IsAllowed : DevPod → Text → Type 0
IsAllowed dp user = (dp.spec.owner ≡ user) ⊎ IsOneOf dp.spec.collaborators user

abbrev pub IsReady : DevPod → Type 0
IsReady dp = (dp.status.phase ≡ running) × (dp.status.endpoint ≢ [])

is_collaborator_iff :
    (cs : List Text) (user : Text) → (is_collaborator cs user ≡ true) ↔ IsOneOf cs user
unfolding is_collaborator
is_collaborator_iff [] user = (λ h. absurd (false≢true h), λ h. absurd h)
is_collaborator_iff (c ∷ cs) user = ground (arith, text_eq_iff c user, is_collaborator_iff cs user)

pub access_allowed_iff :
    (dp : DevPod) (user : Text) → (access_allowed dp user ≡ true) ↔ IsAllowed dp user
unfolding access_allowed
access_allowed_iff dp user =
    ground (arith, text_eq_iff dp.spec.owner user, is_collaborator_iff dp.spec.collaborators user)

-- What `finalize` checks, whatever the way in.
abbrev pub Finalized : DevPod → Text → AuthPath → AuthOutcome → Type 0
Finalized dp user path (accepted r) =
    IsAllowed dp user
    × IsReady dp
    × (r ≡ record {
      user = user;
      devpod_name = dp.metadata.name;
      endpoint = dp.status.endpoint;
      auth_path = path;
    })
Finalized dp user path (rejected devpod_not_ready p) =
    IsAllowed dp user × (¬ IsReady dp) × (p ≡ path)
Finalized dp user path (rejected access_denied p) = (¬ IsAllowed dp user) × (p ≡ path)
Finalized dp user path (rejected _ p) = ⊥

pub not_ready_iff :
    (ph : DevPodPhase) (e : Text)
    → ((not (is_running ph) || is_empty e) ≡ false) ↔ ((ph ≡ running) × (e ≢ []))
unfolding is_running
not_ready_iff ph [] = ground arith
not_ready_iff ph (c ∷ e) = ground arith

pub finalize_lem :
    (dp : DevPod) (user : Text) (path : AuthPath) → Finalized dp user path (finalize dp user path)
unfolding finalize
finalize_lem dp user path =
    let allowed = access_allowed_iff dp user in
    let ready = not_ready_iff dp.status.phase dp.status.endpoint in
    elim (Bool-cases (access_allowed dp user)) [
      | inr bad ↦ rw bad (λ a. false≢true (sym bad ∙ allowed.1 a), refl)
      | inl good ↦
          elim (Bool-cases (not (is_running dp.status.phase) || is_empty dp.status.endpoint)) [
            | inl bad ↦
                rw (good, bad) (allowed.0 good, λ r. false≢true (sym (ready.1 r) ∙ bad), refl)
            | inr fine ↦ rw (good, fine) (allowed.0 good, ready.0 fine, refl)
          ]
    ]
