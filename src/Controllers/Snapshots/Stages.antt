-- ===== src/Controllers/Snapshots/Stages.antt =====
-- The stages of a snapshot, as an abstract machine: from the credentials that a user gave, over the
-- Job, to an end. A written snapshot goes on in the history of its object.
use devpods.Prelude.{ℕ, ◌<◌, Option, none, some, arith}
use devpods.Api.Snapshots.{
  DevPodSnapshot, DevPodSnapshotPhase, snapshot_succeeded, snapshot_failed, PushAuthInline, JobRef,
}

pub data Stage : Type 0 where
  credentials ready copying done broken : Stage

-- The moves of the machine. Credentials that are given while the Job is there lead back to it.
pub data Advances : Stage → Stage → Type 0 where
  stored : Advances credentials ready
  stored_late : Advances credentials copying
  started : Advances ready copying
  not_started : Advances ready broken
  copied : Advances copying done
  not_copied : Advances copying broken

abbrev pub stage_by : DevPodSnapshotPhase → Option PushAuthInline → Option JobRef → Stage
stage_by snapshot_succeeded auth job = done
stage_by snapshot_failed auth job = broken
stage_by _ (some auth) job = credentials
stage_by _ none (some job) = copying
stage_by _ none none = ready

abbrev pub stage : DevPodSnapshot → Stage
stage snap = stage_by snap.status.phase snap.spec.push_auth snap.status.job_ref

-- How many moves are left at most.
abbrev pub rank : Stage → ℕ
rank credentials = 3
rank ready = 2
rank copying = 1
rank done = 0
rank broken = 0

pub Advances-rank : {a b : Stage} → Advances a b → rank b < rank a
Advances-rank stored = omega arith
Advances-rank stored_late = omega arith
Advances-rank started = omega arith
Advances-rank not_started = omega arith
Advances-rank copied = omega arith
Advances-rank not_copied = omega arith
