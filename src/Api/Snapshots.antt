-- ===== src/Api/Snapshots.antt =====
-- api/v1alpha1/devpodsnapshot_types.go.
use devpods.Prelude.{ℕ, Bool, Option, List, Text}
use devpods.Api.Kube.{ObjectMeta}
use devpods.Api.DevPods.{LocalObjectRef}

-- The status of a snapshot that no pass has seen holds the empty phase, here `snapshot_unset`.
pub data DevPodSnapshotPhase : Type 0 where
  snapshot_unset snapshot_pending snapshot_running snapshot_succeeded snapshot_failed :
      DevPodSnapshotPhase

pub record PushAuthInline : Type 0 where
  pub username : Text
  pub password : Text

pub record DevPodSnapshotSpec : Type 0 where
  pub dev_pod_name : Text
  pub image : Text
  pub push : Bool
  pub push_auth : Option PushAuthInline
  pub push_secret_ref : Option LocalObjectRef

pub record JobRef : Type 0 where
  pub name : Text

-- metav1.Condition.
pub record Condition : Type 0 where
  pub kind : Text
  pub status : Bool
  pub reason : Text
  pub message : Text
  pub last_transition_time : ℕ

pub record DevPodSnapshotStatus : Type 0 where
  pub phase : DevPodSnapshotPhase
  pub digest : Text
  pub message : Text
  pub job_ref : Option JobRef
  pub conditions : List Condition

pub record DevPodSnapshot : Type 0 where
  pub metadata : ObjectMeta
  pub spec : DevPodSnapshotSpec
  pub status : DevPodSnapshotStatus
