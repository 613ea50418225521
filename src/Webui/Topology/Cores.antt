-- ===== src/Webui/Topology/Cores.antt =====
-- The cores that a DevPod has on a node: those of an allocation, or of a pool.
use devpods.Prelude.{
  ◌≡◌, refl, sym, ◌∙◌, ◌⊎◌, inl, inr, false, List, [], ◌∷◌, if◌then◌else◌, Bool-cases, Text,
  text_eq, Text-cases, is_empty,
}
use devpods.Webui.Topology.{
  KoreAlloc, KorePool, NodeTopology, own_alloc, in_pool, own_pool, own_cores,
}

abbrev pub HasAlloc : Text → Text → List KoreAlloc → Type 0
HasAlloc name cores [] = ⊥
HasAlloc name cores (a ∷ more) = ((a.devpod ≡ name) × (a.cpuset ≡ cores)) ⊎ HasAlloc name cores more

abbrev pub HasMember : Text → List Text → Type 0
HasMember name [] = ⊥
HasMember name (m ∷ ms) = (m ≡ name) ⊎ HasMember name ms

abbrev pub HasPool : Text → Text → List KorePool → Type 0
HasPool name cores [] = ⊥
HasPool name cores (p ∷ ps) =
    (HasMember name p.members × (p.cpuset ≡ cores)) ⊎ HasPool name cores ps

-- An allocation of the DevPod has these cores, or a pool that it is a member of.
abbrev pub Holds : Text → Text → NodeTopology → Type 0
Holds name cores node = HasAlloc name cores node.allocations ⊎ HasPool name cores node.pools

own_alloc-HasAlloc :
    (name : Text) (more : List KoreAlloc) (mine cores : Text)
    → own_alloc name more mine ≡ cores
    → (cores ≡ mine) ⊎ HasAlloc name cores more
unfolding own_alloc
own_alloc-HasAlloc name [] mine cores h = inl (sym h)
own_alloc-HasAlloc name (a ∷ more) mine cores h =
    let next = if text_eq a.devpod name then a.cpuset else mine in
    elim (own_alloc-HasAlloc name more next cores h) [
      | inr later ↦ inr (inr later)
      | inl kept ↦ elim (Text-cases a.devpod name) [
        | inl (same, e) ↦ inr (inl (same, sym (rw e at kept)))
        | inr (differ, e) ↦ inl (rw e at kept)
      ]
    ]

in_pool-HasMember :
    (name cpuset : Text) (ms : List Text) (mine : Text)
    → (in_pool name cpuset ms mine ≡ mine)
      ⊎ (HasMember name ms × (in_pool name cpuset ms mine ≡ cpuset))
unfolding in_pool
in_pool-HasMember name cpuset [] mine = inl refl
in_pool-HasMember name cpuset (m ∷ ms) mine = elim (Text-cases m name) [
  | inl (same, e) ↦ elim (in_pool-HasMember name cpuset ms cpuset) [
    | inl kept ↦ inr (inl same, rw e kept)
    | inr (later, eq) ↦ inr (inr later, rw e eq)
  ]
  | inr (differ, e) ↦ elim (in_pool-HasMember name cpuset ms mine) [
    | inl kept ↦ inl (rw e kept)
    | inr (later, eq) ↦ inr (inr later, rw e eq)
  ]
]

own_pool-HasPool :
    (name : Text) (ps : List KorePool) (mine : Text)
    → (own_pool name ps mine ≡ mine) ⊎ HasPool name (own_pool name ps mine) ps
unfolding own_pool
own_pool-HasPool name [] mine = inl refl
own_pool-HasPool name (p ∷ ps) mine =
    elim (own_pool-HasPool name ps (in_pool name p.cpuset p.members mine)) [
      | inr later ↦ inr (inr later)
      | inl kept ↦ elim (in_pool-HasMember name p.cpuset p.members mine) [
        | inl none_here ↦ inl (kept ∙ none_here)
        | inr (member, eq) ↦ inr (inl (member, sym (kept ∙ eq)))
      ]
    ]

pub own_cores-Holds :
    (name : Text) (node : NodeTopology)
    → is_empty (own_cores name node) ≡ false
    → Holds name (own_cores name node) node
unfolding own_cores
own_cores-Holds name node h =
    let mine = own_alloc name node.allocations [] in
    elim (Bool-cases (is_empty mine)) [
      | inr full ↦ elim (own_alloc-HasAlloc name node.allocations [] mine refl) [
        | inl kept ↦ absurd (cc)
        | inr held ↦ rw full (inl held)
      ]
      | inl bare ↦ elim (own_pool-HasPool name node.pools mine) [
        | inl kept ↦ absurd (cc)
        | inr held ↦ rw bare (inr held)
      ]
    ]
