-- ===== src/Controllers/Cluster/Laws.antt =====
-- How steps of a pass end.
use devpods.Prelude.{
  ◌≡◌, refl, ap, ◌∙◌, ◌⊎◌, inl, inr, ◌∷◌, Outcome, refused, passed, refused-ne-passed,
  Outcome-cases, Text,
}
use devpods.Controllers.Cluster.{
  Write, WriteResult, accepted, missing, exists_already, rejected, Cluster, Failure, Pass, Step,
  ◌>>>◌, within, perform, must, must_or_missing, accept, accept_missing, in_context, pure,
}

pub WriteResult-cases :
    (r : WriteResult)
    → (r ≡ accepted)
      ⊎ ((r ≡ missing) ⊎ ((r ≡ exists_already) ⊎ ((err : Text) × (r ≡ rejected err))))
WriteResult-cases accepted = inl refl
WriteResult-cases missing = inr (inl refl)
WriteResult-cases exists_already = inr (inr (inl refl))
WriteResult-cases (rejected err) = inr (inr (inr (err, refl)))

module _ {W : Type 0} where
  -- A chain that passes has passed its first step.
  pub >>>-passed :
      {A B : Type 0} (m : Step W A) (f : A → Step W B) (s : Pass W) {b : B} {t : Pass W}
      → (m >>> f) s ≡ (passed b, t)
      → (a : A) × ((m s).0 ≡ passed a) × (f a (m s).1 ≡ (passed b, t))
  >>>-passed m f s h = elim (Outcome-cases (m s).0) [
    | inl (a, e) ↦ (a, e, rw (◌>>>◌, e) at h)
    | inr (x, e) ↦ absurd (refused-ne-passed (ap (λ p. p.0) (rw (◌>>>◌, e) at h)))
  ]

  -- What a write leaves in the pass, and when it passes.
  pub must-Ends :
      (cl : Cluster W) (w : Write) (s : Pass W)
      → (res : WriteResult) × ((must cl w s).1.writes ≡ (w, res) ∷ s.writes)
        × ((must cl w s).0 ≡ passed tt → res ≡ accepted)
  unfolding perform
  must-Ends cl w s =
      let res = (cl.write w s.world).0 in
      elim (WriteResult-cases res) [
        | inl e ↦ (res, rw e refl, λ _. e)
        | inr (inl e) ↦ (res, rw e refl, λ h. absurd (refused-ne-passed (rw e at h)))
        | inr (inr (inl e)) ↦ (res, rw e refl, λ h. absurd (refused-ne-passed (rw e at h)))
        | inr (inr (inr (err, e))) ↦ (res, rw e refl, λ h. absurd (refused-ne-passed (rw e at h)))
      ]

  pub must_or_missing-Ends :
      (cl : Cluster W) (w : Write) (s : Pass W)
      → (res : WriteResult) × ((must_or_missing cl w s).1.writes ≡ (w, res) ∷ s.writes)
        × ((must_or_missing cl w s).0 ≡ passed tt → (res ≡ accepted) ⊎ (res ≡ missing))
  unfolding perform
  must_or_missing-Ends cl w s =
      let res = (cl.write w s.world).0 in
      elim (WriteResult-cases res) [
        | inl e ↦ (res, rw e refl, λ _. inl e)
        | inr (inl e) ↦ (res, rw e refl, λ _. inr e)
        | inr (inr (inl e)) ↦ (res, rw e refl, λ h. absurd (refused-ne-passed (rw e at h)))
        | inr (inr (inr (err, e))) ↦ (res, rw e refl, λ h. absurd (refused-ne-passed (rw e at h)))
      ]

  -- A text before the error changes neither the pass nor whether it passes.
  pub within-Ends :
      {A : Type 0} (context : Text) (m : Step W A) (s : Pass W)
      → ((within context m s).1 ≡ (m s).1)
        × ((a : A) → (within context m s).0 ≡ passed a → (m s).0 ≡ passed a)
  within-Ends context m s = elim (Outcome-cases (m s).0) [
    | inl (a, e) ↦ (rw (within, e) refl, λ b h. e ∙ (rw (within, e) at h))
    | inr (x, e) ↦ (rw (within, e) refl, λ b h. absurd (refused-ne-passed (rw (within, e) at h)))
  ]

  -- Steps whose end is known run on.
  abbrev pub chain :
      {A B : Type 0} → Outcome Failure A × Pass W → (A → Step W B) → Outcome Failure B × Pass W
  chain p f = elim p.0 [ passed a ↦ f a p.1 | refused e ↦ (refused e, p.1) ]

  pub >>>-run :
      {A B : Type 0} (m : Step W A) (f : A → Step W B) (s : Pass W) {p : Outcome Failure A × Pass W}
      → m s ≡ p
      → (m >>> f) s ≡ chain p f
  >>>-run m f s h = ap (λ q. chain q f) h

  pub chain-pure :
      {A B : Type 0} (p : Outcome Failure A × Pass W) (b : B) → (chain p (λ _. pure b)).1 ≡ p.1
  chain-pure (passed a, t) b = refl
  chain-pure (refused e, t) b = refl

  pub within-run :
      {A : Type 0} (context : Text) (m : Step W A) (s : Pass W) {a : A} {t : Pass W}
      → m s ≡ (passed a, t)
      → within context m s ≡ (passed a, t)
  within-run context m s h =
      ap
        (λ q. (elim q.0 [
          | passed b ↦ (passed b, q.1)
          | refused e ↦ (refused (in_context context e), q.1)
        ]))
        h

  -- The pass after a write.
  abbrev pub written : Cluster W → Write → WriteResult → Pass W → Pass W
  written cl w res s = record s { world = (cl.write w s.world).1; writes = (w, res) ∷ s.writes }

  pub must-accepted :
      (cl : Cluster W) (w : Write) (s : Pass W)
      → (cl.write w s.world).0 ≡ accepted
      → must cl w s ≡ (passed tt, written cl w accepted s)
  unfolding perform
  must-accepted cl w s h = ap (λ res. accept res (written cl w res s)) h

  pub must_or_missing-accepted :
      (cl : Cluster W) (w : Write) (s : Pass W)
      → (cl.write w s.world).0 ≡ accepted
      → must_or_missing cl w s ≡ (passed tt, written cl w accepted s)
  unfolding perform
  must_or_missing-accepted cl w s h = ap (λ res. accept_missing res (written cl w res s)) h
