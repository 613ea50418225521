-- ===== src/Webui/Topology/Origins.antt =====
-- Where the marks and the names of a shown node come from: the status of Kore, and the listed Pods.
use devpods.Prelude.{
  ◌≡◌, refl, sym, ap, ◌∙◌, subst, ◌≢◌, ◌⊎◌, inl, inr, none, some, List, [], ◌∷◌, ◌++◌, map, ◌==◌,
  ==_iff, Bool-cases, Option-cases, some-injective, Text, Text-cases, Dict, lookup, insert,
  lookup-insert,
}
use devpods.Api.Kube.{Pod}
use devpods.Webui.Topology.{
  KoreAlloc, KorePool, KoreStatusRaw, mark_devpod, cut_slash, uid_to_name, resolve_member,
  resolve_pool,
}
use devpods.Webui.Topology.Cores.{HasAlloc, HasMember, HasPool}

-- An allocation is the DevPod's by the namespace and the name of its pod, or because Kore says so itself.
abbrev pub IsAllocOf : Text → Text → KoreAlloc → Type 0
IsAllocOf ns name a = (a.pod ≡ ns ++ b'/' ∷ name) ⊎ (a.devpod ≡ name)

abbrev pub HasAllocOf : Text → Text → Text → List KoreAlloc → Type 0
HasAllocOf ns name cores [] = ⊥
HasAllocOf ns name cores (a ∷ more) =
    (IsAllocOf ns name a × (a.cpuset ≡ cores)) ⊎ HasAllocOf ns name cores more

-- A listed Pod has the UID and the name.
abbrev pub HasPod : Text → Text → List Pod → Type 0
HasPod uid name [] = ⊥
HasPod uid name (p ∷ ps) = ((p.metadata.uid ≡ uid) × (p.metadata.name ≡ name)) ⊎ HasPod uid name ps

-- A member of a pool stands for the DevPod by its name, or by the UID of a listed Pod of that name.
abbrev pub HasMemberOf : List Pod → Text → List Text → Type 0
HasMemberOf pods name [] = ⊥
HasMemberOf pods name (m ∷ ms) = ((m ≡ name) ⊎ HasPod m name pods) ⊎ HasMemberOf pods name ms

abbrev pub HasPoolOf : List Pod → Text → Text → List KorePool → Type 0
HasPoolOf pods name cores [] = ⊥
HasPoolOf pods name cores (p ∷ ps) =
    (HasMemberOf pods name p.members × (p.cpuset ≡ cores)) ⊎ HasPoolOf pods name cores ps

-- The DevPod has these cores by the status of Kore.
abbrev pub HoldsIn : Text → List Pod → Text → Text → KoreStatusRaw → Type 0
HoldsIn ns pods name cores st =
    HasAllocOf ns name cores st.allocations ⊎ HasPoolOf pods name cores st.pools

some-ne-none {ℓ} : {A : Type ℓ} {a : A} → none ≢ some a
some-ne-none h = cc

cut_slash_lem :
    (s before after : Text) → cut_slash s ≡ some (before, after) → s ≡ before ++ b'/' ∷ after
unfolding cut_slash
cut_slash_lem [] before after h = absurd (some-ne-none h)
cut_slash_lem (c ∷ s) before after h = elim (Bool-cases (c == b'/')) [
  | inl here ↦
      let cut = some-injective (rw here at h) in
      ap (λ x. x ∷ s) ((==_iff c b'/').0 here) ∙ ap (λ (p : Text × Text). p.0 ++ b'/' ∷ p.1) cut
  | inr later ↦ elim (Option-cases (cut_slash s)) [
    | inl e ↦ absurd (some-ne-none (rw (later, e) at h))
    | inr ((b, a), e) ↦
        let cut = some-injective (rw (later, e) at h) in
        ap (λ x. c ∷ x) (cut_slash_lem s b a e) ∙ ap (λ (p : Text × Text). p.0 ++ b'/' ∷ p.1) cut
  ]
]

mark_devpod-IsAllocOf :
    (ns name : Text) (a : KoreAlloc)
    → (mark_devpod ns a).devpod ≡ name
    → IsAllocOf ns name a × ((mark_devpod ns a).cpuset ≡ a.cpuset)
unfolding mark_devpod
mark_devpod-IsAllocOf ns name a h = elim (Option-cases (cut_slash a.pod)) [
  | inl e ↦ (inr (rw (mark_devpod, e) at h), rw (mark_devpod, e) refl)
  | inr ((before, after), e) ↦ elim (Text-cases before ns) [
    | inl (same, t) ↦
        let is_name : after ≡ name = rw (mark_devpod, e, t) at h in
        (
          inl (
              cut_slash_lem a.pod before after e
              ∙ ap (λ x. x ++ b'/' ∷ after) same
              ∙ ap (λ x. ns ++ b'/' ∷ x) is_name),
          rw (mark_devpod, e, t) refl,
        )
    | inr (differ, t) ↦ (inr (rw (mark_devpod, e, t) at h), rw (mark_devpod, e, t) refl)
  ]
]

pub HasAlloc-mark :
    (ns name cores : Text) (more : List KoreAlloc)
    → HasAlloc name cores (map (mark_devpod ns) more)
    → HasAllocOf ns name cores more
HasAlloc-mark ns name cores [] h = absurd h
HasAlloc-mark ns name cores (a ∷ more) (inr later) = inr (HasAlloc-mark ns name cores more later)
HasAlloc-mark ns name cores (a ∷ more) (inl (marked, cpus)) =
    let (mine, kept) = mark_devpod-IsAllocOf ns name a marked in inl (mine, sym kept ∙ cpus)

uid_to_name_lem :
    (pods : List Pod) (names : Dict Text) (uid name : Text)
    → lookup uid (uid_to_name pods names) ≡ some name
    → (lookup uid names ≡ some name) ⊎ HasPod uid name pods
unfolding uid_to_name
uid_to_name_lem [] names uid name h = inl h
uid_to_name_lem (p ∷ ps) names uid name h =
    elim (uid_to_name_lem ps (insert p.metadata.uid p.metadata.name names) uid name h) [
      | inr later ↦ inr (inr later)
      | inl put ↦
          let at_uid = sym (lookup-insert p.metadata.uid uid p.metadata.name names) ∙ put in
          elim (Text-cases p.metadata.uid uid) [
            | inl (same, e) ↦ inr (inl (same, some-injective (rw e at at_uid)))
            | inr (differ, e) ↦ inl (rw e at at_uid)
          ]
    ]

resolve_member_lem :
    (pods : List Pod) (name m : Text)
    → resolve_member (uid_to_name pods []) m ≡ name
    → (m ≡ name) ⊎ HasPod m name pods
unfolding lookup
resolve_member_lem pods name m h = elim (Option-cases (lookup m (uid_to_name pods []))) [
  | inl e ↦ inl (rw (resolve_member, e) at h)
  | inr (n, e) ↦
      let is_name : n ≡ name = rw (resolve_member, e) at h in
      elim (uid_to_name_lem pods [] m n e) [
        | inl bare ↦ absurd (some-ne-none bare)
        | inr listed ↦ inr (subst (λ x. HasPod m x pods) is_name listed)
      ]
]

HasMember-resolve :
    (pods : List Pod) (name : Text) (ms : List Text)
    → HasMember name (map (resolve_member (uid_to_name pods [])) ms)
    → HasMemberOf pods name ms
HasMember-resolve pods name [] h = absurd h
HasMember-resolve pods name (m ∷ ms) (inl here) = inl (resolve_member_lem pods name m here)
HasMember-resolve pods name (m ∷ ms) (inr later) = inr (HasMember-resolve pods name ms later)

pub HasPool-resolve :
    (pods : List Pod) (name cores : Text) (ps : List KorePool)
    → HasPool name cores (map (resolve_pool (uid_to_name pods [])) ps)
    → HasPoolOf pods name cores ps
HasPool-resolve pods name cores [] h = absurd h
HasPool-resolve pods name cores (p ∷ ps) (inl (member, cpus)) =
    inl (HasMember-resolve pods name p.members member, cpus)
HasPool-resolve pods name cores (p ∷ ps) (inr later) =
    inr (HasPool-resolve pods name cores ps later)

-- Without a list of Pods the members are as Kore names them.
HasMember-unlisted : (name : Text) (ms : List Text) → HasMember name ms → HasMemberOf [] name ms
HasMember-unlisted name [] h = absurd h
HasMember-unlisted name (m ∷ ms) (inl here) = inl (inl here)
HasMember-unlisted name (m ∷ ms) (inr later) = inr (HasMember-unlisted name ms later)

pub HasPool-unlisted :
    (name cores : Text) (ps : List KorePool) → HasPool name cores ps → HasPoolOf [] name cores ps
HasPool-unlisted name cores [] h = absurd h
HasPool-unlisted name cores (p ∷ ps) (inl (member, cpus)) =
    inl (HasMember-unlisted name p.members member, cpus)
HasPool-unlisted name cores (p ∷ ps) (inr later) = inr (HasPool-unlisted name cores ps later)
