-- ===== src/Controllers/Snapshots/Histories.antt =====
-- The history of a snapshot under its reconciler: it ends.
use devpods.Prelude.{
  ℕ, ◌+◌, ◌≤◌, ◌<◌, ◌≡◌, sym, ap, ◌∙◌, subst, ◌≢◌, inl, inr, List, ◌∷◌, arith, length,
}
use devpods.Api.Snapshots.{DevPodSnapshot}
use devpods.Controllers.Cluster.{Pass}
use devpods.Controllers.Snapshots.{SnapshotReconciler, reconcile_snapshot_found}
use devpods.Controllers.Snapshots.Stages.{Advances-rank, stage, rank}
use devpods.Controllers.Snapshots.Refinement.{reconcile_snapshot_found-Writes}
use devpods.Controllers.Snapshots.Writes.{snapshot_writes}

-- A number of writes of the snapshot, each by a pass, in any state of the cluster, over what the one
-- before wrote.
pub data History {W : Type 0} (r : SnapshotReconciler W) : DevPodSnapshot → ℕ → Type 0 where
  at_rest : (snap : DevPodSnapshot) → History r snap 0
  after_pass :
      (snap x : DevPodSnapshot) (s : Pass W) (n : ℕ)
      → snapshot_writes (reconcile_snapshot_found r snap s).1.writes ≡ x ∷ snapshot_writes s.writes
      → History r x n
      → History r snap (n + 1)

longer : (x : DevPodSnapshot) (xs : List DevPodSnapshot) → xs ≢ x ∷ xs
longer x xs h = omega (arith, ap length h)

same_head : {x y : DevPodSnapshot} {xs ys : List DevPodSnapshot} → x ∷ xs ≡ y ∷ ys → x ≡ y
same_head h = cc

written-rank :
    {W : Type 0} (r : SnapshotReconciler W) (snap x : DevPodSnapshot) (s : Pass W)
    → snapshot_writes (reconcile_snapshot_found r snap s).1.writes ≡ x ∷ snapshot_writes s.writes
    → rank (stage x) < rank (stage snap)
written-rank r snap x s h = elim (reconcile_snapshot_found-Writes r snap s) [
  | inl none_written ↦ absurd (longer x (snapshot_writes s.writes) (sym none_written ∙ h))
  | inr (y, (move, _, _, _, _), k) ↦
      subst (λ z. rank (stage z) < rank (stage snap)) (same_head (sym k ∙ h)) (Advances-rank move)
]

-- The reconciler comes to an end with every snapshot: from the stage at which it is found, it is
-- written at most three times if it holds credentials, twice if it waits for its Job, once while the
-- Job runs, and never again after it has succeeded or failed.
pub History-bounded :
    {W : Type 0} (r : SnapshotReconciler W) (snap : DevPodSnapshot) (n : ℕ)
    → History r snap n
    → n ≤ rank (stage snap)
History-bounded r snap n (at_rest _) = omega arith
History-bounded r snap n (after_pass _ x s m h rest) =
    let step = written-rank r snap x s h in
    let bound = History-bounded r x m rest in omega (arith, step, bound)
