-- ===== src/Controllers/DevPods/Deletion.antt =====
-- What a DevPod that is being deleted leaves behind when its finalizer goes.
use devpods.Prelude.{
  ◌++◌, arith, text_eq_iff, ◌≡◌, refl, sym, ap, ◌∙◌, ◌≢◌, ◌↔◌, ◌⊎◌, inl, inr, Bool, true, false,
  Option, none, some, List, [], ◌∷◌, Bool-cases, is_none, Outcome, refused, passed,
  refused-ne-passed, Outcome-cases, Text, bytes, Text-cases,
}
use devpods.Api.Kube.{OwnerReference, found, not_found, get_failed, GetResult}
use devpods.Api.Objects.{Claim}
use devpods.Api.DevPods.{DevPod}
use devpods.Render.Naming.{home_pvc_name, pod_name, owner_net_pol_name}
use devpods.Controllers.Cluster.{
  Write, update_devpod, delete_policy, patch_claim, WriteResult, accepted, missing, Pass, Step,
  pure, ◌>>>◌, must, must_or_missing, within,
}
use devpods.Controllers.Cluster.Laws.{must-Ends, must_or_missing-Ends, within-Ends}
use devpods.Controllers.DevPods.{
  Reconciler, Requeue, settled, is_own_reference, filter_references, with_references,
  has_live_sibling, detach_claim, detach_read, detach_pvc, cleanup_listed,
  cleanup_owner_net_pol_if_last, without_finalizer, finalize_devpod,
}

-- Another DevPod of the owner that is not being deleted.
abbrev pub IsLiveSibling : DevPod → DevPod → Type 0
IsLiveSibling dp s =
    (s.metadata.uid ≢ dp.metadata.uid)
    × (s.spec.owner ≡ dp.spec.owner)
    × (s.metadata.deletion_timestamp ≡ none)

abbrev pub HasLiveSibling : DevPod → List DevPod → Type 0
HasLiveSibling dp [] = ⊥
HasLiveSibling dp (s ∷ siblings) = IsLiveSibling dp s ⊎ HasLiveSibling dp siblings

is_none-none {ℓ} : {A : Type ℓ} (o : Option A) → is_none o ≡ true → o ≡ none
is_none-none none h = refl
is_none-none (some a) h = cc

is_none-some {ℓ} : {A : Type ℓ} (o : Option A) → is_none o ≡ false → o ≢ none
is_none-some none h = cc
is_none-some (some a) h = cc

pub has_live_sibling_iff :
    (dp : DevPod) (siblings : List DevPod)
    → (has_live_sibling dp siblings ≡ true) ↔ HasLiveSibling dp siblings
unfolding has_live_sibling
has_live_sibling_iff dp [] = (λ h. cc, λ h. absurd h)
has_live_sibling_iff dp (s ∷ siblings) =
    let rest = has_live_sibling_iff dp siblings in
    elim (Text-cases s.metadata.uid dp.metadata.uid) [
      | inl (same, e) ↦ rw e (
        λ h. inr (rest.0 h),
        λ h. elim h [ inl (ne, _, _) ↦ absurd (ne same) | inr k ↦ rest.1 k ],
      )
      | inr (differ, e) ↦ elim (Text-cases s.spec.owner dp.spec.owner) [
        | inr (other, k) ↦
            rw (e, k)
              (
                λ h. inr (rest.0 h),
                λ h. elim h [ inl (_, own, _) ↦ absurd (other own) | inr j ↦ rest.1 j ],
              )
        | inl (own, k) ↦ elim (Bool-cases (is_none s.metadata.deletion_timestamp)) [
          | inl live ↦ rw (e, k, live) (λ _. inl (differ, own, is_none-none _ live), λ _. refl)
          | inr dying ↦
              rw (e, k, dying)
                (
                  λ h. inr (rest.0 h),
                  λ h. elim h [
                    | inl (_, _, live) ↦ absurd (is_none-some _ dying live)
                    | inr j ↦ rest.1 j
                  ],
                )
        ]
      ]
    ]

true-ne-false : true ≢ false
true-ne-false h = cc

-- A reference of the DevPod's own.
abbrev pub IsOwn : DevPod → OwnerReference → Type 0
IsOwn dp ref = (ref.kind ≡ bytes "DevPod") × (ref.uid ≡ dp.metadata.uid)

-- The second list holds the references of the first that are not the DevPod's, in their order.
abbrev pub AreOthers : DevPod → List OwnerReference → List OwnerReference → Type 0
AreOthers dp [] out = out ≡ []
AreOthers dp (ref ∷ refs) out =
    (IsOwn dp ref × AreOthers dp refs out)
    ⊎ (¬ IsOwn dp ref
        × ((rest : List OwnerReference) × (out ≡ ref ∷ rest) × AreOthers dp refs rest))

is_own_reference_iff :
    (dp : DevPod) (ref : OwnerReference) → (is_own_reference dp ref ≡ true) ↔ IsOwn dp ref
unfolding is_own_reference
is_own_reference_iff dp ref =
    ground (arith, text_eq_iff ref.kind (bytes "DevPod"), text_eq_iff ref.uid dp.metadata.uid)

filter_references_lem :
    (dp : DevPod) (refs : List OwnerReference)
    → AreOthers dp refs (filter_references dp refs).0
      × ((filter_references dp refs).1 ≡ false → (filter_references dp refs).0 ≡ refs)
unfolding filter_references
filter_references_lem dp [] = (refl, λ _. refl)
filter_references_lem dp (ref ∷ refs) =
    let (kept, same) = filter_references_lem dp refs in
    let own_iff = is_own_reference_iff dp ref in
    elim (Bool-cases (is_own_reference dp ref)) [
      | inl own ↦ rw own (inl (own_iff.0 own, kept), λ h. cc)
      | inr other ↦ rw other (
        inr (λ own. true-ne-false (sym (own_iff.1 own) ∙ other), (_, refl, kept)),
        λ h. ap (λ xs. ref ∷ xs) (same h),
      )
    ]

-- Whether a pass has tried to write the DevPod itself, which is what removes the finalizer.
unfoldable pub has_update : List (Write × WriteResult) → Bool
has_update [] = false
has_update ((update_devpod dp, res) ∷ ws) = true
has_update ((_, res) ∷ ws) = has_update ws

module _ {W : Type 0} (r : Reconciler W) (dp : DevPod) where
  -- The home claim between two moments of a pass: there was none to detach, or none of its references
  -- was the DevPod's, or it was patched to hold exactly the others.
  abbrev pub IsDetached : Pass W → Pass W → Type 0
  IsDetached s u =
      ((dp.spec.persistence ≡ none) × (u.writes ≡ s.writes))
      ⊎ (((r.cluster.get_claim r.config.dev_pod_namespace (dp.metadata.name ++ bytes "-home")
                s.world
              ≡ not_found)
            × (u.writes ≡ s.writes))
          ⊎ ((claim : Claim) × (others : List OwnerReference) × (r.cluster.get_claim
                  r.config.dev_pod_namespace (dp.metadata.name ++ bytes "-home") s.world
                ≡ found claim)
              × AreOthers dp claim.metadata.owner_references others
              × (((others ≡ claim.metadata.owner_references) × (u.writes ≡ s.writes))
                  ⊎ (u.writes
                      ≡ (
                        patch_claim (record claim {
                          metadata = record claim.metadata { owner_references = others };
                        }),
                        accepted,
                      )
                        ∷ s.writes))))

  -- The owner's policy: a live sibling keeps it, or it is deleted or was not there.
  abbrev pub IsFreed : Pass W → Pass W → Type 0
  IsFreed u v =
      (siblings : List DevPod) × (r.cluster.list_devpods r.config.dev_pod_namespace u.world
        ≡ passed siblings)
      × ((HasLiveSibling dp siblings × (v.writes ≡ u.writes))
          ⊎ (¬ HasLiveSibling dp siblings
              × ((res : WriteResult) × ((res ≡ accepted) ⊎ (res ≡ missing))
                  × (v.writes
                      ≡ (
                        delete_policy r.config.dev_pod_namespace
                            (bytes "devpod-allow-" ++ dp.spec.owner),
                        res,
                      )
                        ∷ u.writes))))

  detach_claim-Ends :
      (claim : Claim) (s : Pass W)
      → r.cluster.get_claim r.config.dev_pod_namespace (dp.metadata.name ++ bytes "-home") s.world
        ≡ found claim
      → (has_update (detach_claim r dp claim s).1.writes ≡ has_update s.writes)
        × ((detach_claim r dp claim s).0 ≡ passed tt → IsDetached s (detach_claim r dp claim s).1)
  unfolding detach_claim has_update
  detach_claim-Ends claim s got =
      let refs = claim.metadata.owner_references in
      let (others, same) = filter_references_lem dp refs in
      elim (Bool-cases (filter_references dp refs).1) [
        | inr none_own ↦
            rw none_own (refl, λ _. inr (inr (claim, _, got, others, inl (same none_own, refl))))
        | inl some_own ↦ rw some_own (
            let w = patch_claim (with_references claim (filter_references dp refs).0) in
            let (res, log, ok) = must-Ends r.cluster w s in
            (
              rw log refl,
              λ h.
                  inr (inr (claim, _, got, others, inr (log ∙ ap (λ x. (w, x) ∷ s.writes) (ok h)))),
            ))
      ]

  detach_read-Ends :
      (s : Pass W) (got : GetResult Claim)
      → r.cluster.get_claim r.config.dev_pod_namespace (dp.metadata.name ++ bytes "-home") s.world
        ≡ got
      → (has_update (detach_read r dp got s).1.writes ≡ has_update s.writes)
        × ((detach_read r dp got s).0 ≡ passed tt → IsDetached s (detach_read r dp got s).1)
  unfolding detach_read
  detach_read-Ends s not_found h = (refl, λ _. inr (inl (h, refl)))
  detach_read-Ends s (get_failed err) h = (refl, λ k. absurd (refused-ne-passed k))
  detach_read-Ends s (found claim) h = detach_claim-Ends claim s h

  detach_pvc-Ends :
      (s : Pass W)
      → (has_update (detach_pvc r dp s).1.writes ≡ has_update s.writes)
        × ((detach_pvc r dp s).0 ≡ passed tt → IsDetached s (detach_pvc r dp s).1)
  unfolding detach_pvc home_pvc_name pod_name
  detach_pvc-Ends s = elim (Bool-cases (is_none dp.spec.persistence)) [
    | inl e ↦ rw (detach_pvc, e) (refl, λ _. inl (is_none-none _ e, refl))
    | inr e ↦ rw (detach_pvc, e) (detach_read-Ends s _ refl)
  ]

  cleanup_listed-Ends :
      (s : Pass W) (listed : Outcome Text (List DevPod))
      → r.cluster.list_devpods r.config.dev_pod_namespace s.world ≡ listed
      → (has_update (cleanup_listed r dp listed s).1.writes ≡ has_update s.writes)
        × ((cleanup_listed r dp listed s).0 ≡ passed tt
            → IsFreed s (cleanup_listed r dp listed s).1)
  unfolding cleanup_listed has_update owner_net_pol_name
  cleanup_listed-Ends s (refused err) h = (refl, λ k. absurd (refused-ne-passed k))
  cleanup_listed-Ends s (passed siblings) h =
      let live = has_live_sibling_iff dp siblings in
      let w = delete_policy r.config.dev_pod_namespace (bytes "devpod-allow-" ++ dp.spec.owner) in
      let (res, log, ok) = must_or_missing-Ends r.cluster w s in
      let (same, pass) =
        within-Ends (bytes "delete owner allow netpol") (must_or_missing r.cluster w) s in
      elim (Bool-cases (has_live_sibling dp siblings)) [
        | inl e ↦ rw (cleanup_listed, e) (refl, λ _. (siblings, h, inl (live.0 e, refl)))
        | inr e ↦
            rw (cleanup_listed, e)
              (
                rw (same, log) refl,
                λ k. (
                  siblings,
                  h,
                  inr (λ l. (let on = live.1 l in cc), (res, ok (pass tt k), rw same log)),
                ),
              )
      ]

  cleanup-Ends :
      (s : Pass W)
      → (has_update (cleanup_owner_net_pol_if_last r dp s).1.writes ≡ has_update s.writes)
        × ((cleanup_owner_net_pol_if_last r dp s).0 ≡ passed tt
            → IsFreed s (cleanup_owner_net_pol_if_last r dp s).1)
  unfolding cleanup_owner_net_pol_if_last
  cleanup-Ends s = cleanup_listed-Ends s _ refl

  -- The last step, behind the two others.
  abbrev pub clear_finalizer : Step W Requeue
  clear_finalizer =
      within (bytes "clear finalizer") (must r.cluster (update_devpod (without_finalizer r dp)))
      >>> λ _. pure settled

  clear_finalizer-Ends :
      (s : Pass W)
      → (res : WriteResult) × ((clear_finalizer s).1.writes
          ≡ (update_devpod (without_finalizer r dp), res) ∷ s.writes)
  clear_finalizer-Ends s =
      let w = update_devpod (without_finalizer r dp) in
      let (res, log, ok) = must-Ends r.cluster w s in
      let (same, pass) = within-Ends (bytes "clear finalizer") (must r.cluster w) s in
      let step = within (bytes "clear finalizer") (must r.cluster w) in
      elim (Outcome-cases (step s).0) [
        | inl (a, e) ↦ (res, rw (◌>>>◌, e) (rw (same, log) refl))
        | inr (x, e) ↦ (res, rw (◌>>>◌, e) (rw (same, log) refl))
      ]

  -- The finalizer of a DevPod goes last: a pass over a DevPod that is being deleted writes the DevPod
  -- only after its home claim is detached (there is none, or it holds just the references that are not
  -- the DevPod's) and after the owner's network policy is settled (a live DevPod of the owner keeps
  -- it, or it is deleted); and what it writes is the DevPod with the finalizers that RemoveFinalizer leaves of
  -- its own for "devpod.io/devpod-cleanup".
  pub finalize_devpod-Releases :
      (s : Pass W)
      → has_update s.writes ≡ false
      → has_update (finalize_devpod r dp s).1.writes ≡ true
      → (u v : Pass W) × IsDetached s u
        × IsFreed u v
        × ((res : WriteResult) × ((finalize_devpod r dp s).1.writes
              ≡ (
                update_devpod (record dp {
                  metadata = record dp.metadata {
                    finalizers =
                        r.tools.finalizers.remove
                          (bytes "devpod.io/devpod-cleanup")
                          dp.metadata.finalizers;
                  };
                }),
                res,
              )
                ∷ v.writes))
  unfolding finalize_devpod without_finalizer
  finalize_devpod-Releases s fresh updated =
      let (quiet, detached) = detach_pvc-Ends s in
      let u = (detach_pvc r dp s).1 in
      let (calm, freed) = cleanup-Ends u in
      let v = (cleanup_owner_net_pol_if_last r dp u).1 in
      elim (Outcome-cases (detach_pvc r dp s).0) [
        | inr (x, e) ↦ absurd (true-ne-false (sym (rw (◌>>>◌, e) at updated) ∙ quiet ∙ fresh))
        | inl (_, e) ↦ elim (Outcome-cases (cleanup_owner_net_pol_if_last r dp u).0) [
          | inr (x, k) ↦
              absurd (true-ne-false (sym (rw (◌>>>◌, e, k) at updated) ∙ calm ∙ quiet ∙ fresh))
          | inl (_, k) ↦ (u, v, detached e, freed k, rw (◌>>>◌, e, k) (clear_finalizer-Ends v))
        ]
      ]
