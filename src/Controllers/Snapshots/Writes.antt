-- ===== src/Controllers/Snapshots/Writes.antt =====
-- The writes of one step of a reconciliation, and those of the steps that record an outcome.
use devpods.Prelude.{
  ◌≡◌, refl, sym, ap, ◌∙◌, subst, ◌⊎◌, inl, inr, Option, none, some, List, [], ◌∷◌, Bool-cases,
  Outcome, refused, passed, Outcome-cases, Text,
}
use devpods.Api.Kube.{GetResult, found, not_found, get_failed}
use devpods.Api.Objects.{
  LiveJob, JobCondition, JobConditionType, job_complete, job_failed, job_other,
}
use devpods.Api.Snapshots.{DevPodSnapshot, snapshot_running, PushAuthInline}
use devpods.Controllers.Cluster.{
  Write, update_snapshot, patch_snapshot, WriteResult, Pass, Step, ◌>>>◌, must, within, given,
  Failure,
}
use devpods.Controllers.Cluster.Laws.{must-Ends, chain-pure}
use devpods.Controllers.DevPods.{settled}
use devpods.Controllers.Snapshots.{
  SnapshotReconciler, patch_to, set_failed, set_succeeded, set_running, failed_snapshot,
  succeeded_snapshot, running_snapshot, follow_conditions, follow_job,
}
use devpods.Controllers.Snapshots.Stages.{
  Stage, ready, copying, done, broken, Advances, started, copied, not_copied, stage_by, stage,
}

-- The snapshots that a pass has tried to write, the last first.
unfoldable pub snapshot_writes : List (Write × WriteResult) → List DevPodSnapshot
snapshot_writes [] = []
snapshot_writes ((update_snapshot x, res) ∷ ws) = x ∷ snapshot_writes ws
snapshot_writes ((patch_snapshot x, res) ∷ ws) = x ∷ snapshot_writes ws
snapshot_writes ((_, res) ∷ ws) = snapshot_writes ws

-- A write that carries the object on: it is a move of the machine, and keeps the identity of the
-- object and what the user asked for.
abbrev CarriesOn : DevPodSnapshot → DevPodSnapshot → Type 0
CarriesOn snap x =
    Advances (stage snap) (stage x)
    × (x.metadata ≡ snap.metadata)
    × (x.spec.dev_pod_name ≡ snap.spec.dev_pod_name)
    × (x.spec.image ≡ snap.spec.image)
    × (x.spec.push ≡ snap.spec.push)

-- From one moment of a pass to another the snapshot is not written, or once, and carried on.
abbrev pub Writes : {W : Type 0} → DevPodSnapshot → Pass W → Pass W → Type 0
Writes snap s t =
    (snapshot_writes t.writes ≡ snapshot_writes s.writes)
    ⊎ ((x : DevPodSnapshot) × CarriesOn snap x
        × (snapshot_writes t.writes ≡ x ∷ snapshot_writes s.writes))

kind-cases : (k : JobConditionType) → (k ≡ job_complete) ⊎ ((k ≡ job_failed) ⊎ (k ≡ job_other))
kind-cases job_complete = inl refl
kind-cases job_failed = inr (inl refl)
kind-cases job_other = inr (inr refl)

module _ {W : Type 0} (r : SnapshotReconciler W) (snap : DevPodSnapshot) where
  -- A step that writes no snapshot, and then one that does.
  pub quiet_then :
      {A B : Type 0} (m : Step W A) (f : A → Step W B) (s : Pass W)
      → snapshot_writes (m s).1.writes ≡ snapshot_writes s.writes
      → ((a : A) → Writes snap (m s).1 (f a (m s).1).1)
      → Writes snap s ((m >>> f) s).1
  quiet_then m f s quiet next = elim (Outcome-cases (m s).0) [
    | inr (x, e) ↦ rw (◌>>>◌, e) (inl quiet)
    | inl (a, e) ↦
        rw (◌>>>◌, e)
          (elim (next a) [
            | inl k ↦ inl (k ∙ quiet)
            | inr (x, p, k) ↦ inr (x, p, k ∙ ap (λ ws. x ∷ ws) quiet)
          ])
  ]

  pub given_quiet :
      {A : Type 0} (context : Text) (wrap : Text → Failure) (o : Outcome Text A) (s : Pass W)
      → snapshot_writes (within context (given wrap o) s).1.writes ≡ snapshot_writes s.writes
  given_quiet context wrap (passed a) s = refl
  given_quiet context wrap (refused e) s = refl

  patch_to-Writes :
      (x : DevPodSnapshot) (s : Pass W) → CarriesOn snap x → Writes snap s (patch_to r snap x s).1
  unfolding patch_to snapshot_writes
  patch_to-Writes x s good =
      let (res, log, _) = must-Ends r.cluster (patch_snapshot x) s in
      inr (
        x,
        good,
        ap (λ p. snapshot_writes p.writes)
              (chain-pure (must r.cluster (patch_snapshot x) s) settled)
            ∙ ap snapshot_writes log,
      )

  pub set_failed-Writes :
      (message : Text) (s : Pass W)
      → Advances (stage snap) broken
      → Writes snap s (set_failed r snap message s).1
  unfolding set_failed failed_snapshot
  set_failed-Writes message s h =
      patch_to-Writes (failed_snapshot r snap message (r.cluster.now s.world)) s
        (h, refl, refl, refl, refl)

  set_succeeded-Writes :
      (digest : Text) (s : Pass W)
      → Advances (stage snap) done
      → Writes snap s (set_succeeded r snap digest s).1
  unfolding set_succeeded succeeded_snapshot
  set_succeeded-Writes digest s h =
      patch_to-Writes (succeeded_snapshot r snap digest (r.cluster.now s.world)) s
        (h, refl, refl, refl, refl)

  pub set_running-Writes :
      (name : Text) (s : Pass W)
      → stage snap ≡ ready
      → snap.spec.push_auth ≡ none
      → Writes snap s (set_running r snap name s).1
  unfolding set_running running_snapshot
  set_running-Writes name s at_ready bare =
      let running : Option PushAuthInline → Stage =
        λ auth. stage_by snapshot_running auth (some (record { name = name })) in
      let move =
        subst (λ a. Advances a (running snap.spec.push_auth)) (sym at_ready)
          (subst (λ auth. Advances ready (running auth)) (sym bare) started) in
      patch_to-Writes (running_snapshot r snap name) s (move, refl, refl, refl, refl)

  -- The Job: what its conditions lead to.
  follow_conditions-Writes :
      (job : LiveJob) (cs : List JobCondition) (s : Pass W)
      → stage snap ≡ copying
      → Writes snap s (follow_conditions r snap job cs s).1
  unfolding follow_conditions
  follow_conditions-Writes job [] s h = inl refl
  follow_conditions-Writes job (c ∷ cs) s h =
      let rest = follow_conditions-Writes job cs s h in
      let fails = subst (λ a. Advances a broken) (sym h) not_copied in
      let succeeds = subst (λ a. Advances a done) (sym h) copied in
      elim (Bool-cases c.is_true) [
        | inr off ↦ rw off rest
        | inl on ↦ elim (kind-cases c.kind) [
          | inl e ↦ rw (on, e) (set_succeeded-Writes _ s succeeds)
          | inr (inl e) ↦ rw (on, e) (set_failed-Writes _ s fails)
          | inr (inr e) ↦ rw (on, e) rest
        ]
      ]

  pub follow_job-Writes :
      (name : Text) (got : GetResult LiveJob) (s : Pass W)
      → stage snap ≡ copying
      → Writes snap s (follow_job r snap name got s).1
  unfolding follow_job
  follow_job-Writes name (found job) s h = follow_conditions-Writes job job.conditions s h
  follow_job-Writes name not_found s h =
      set_failed-Writes _ s (subst (λ a. Advances a broken) (sym h) not_copied)
  follow_job-Writes name (get_failed err) s h = inl refl
