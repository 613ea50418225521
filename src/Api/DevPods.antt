-- ===== src/Api/DevPods.antt =====
-- api/v1alpha1/devpod_types.go.
use devpods.Prelude.{ℤ, ℕ, Bool, true, false, Option, List, [], Text, bytes, Dict}
use devpods.Api.Kube.{PodSpec, ObjectMeta}

-- The status of an object that no reconcile has seen holds the empty phase, here `unset`.
pub data DevPodPhase : Type 0 where
  unset pending running stopped failed : DevPodPhase

pub record PersistenceSpec : Type 0 where
  pub size : ℤ
  pub storage_class_name : Text
  pub access_modes : List Text
  pub mount_path : Text
  pub target_container : Text

pub record PodMetadata : Type 0 where
  pub labels : Dict Text
  pub annotations : Dict Text

pub record PodWorkloadSpec : Type 0 where
  pub metadata : PodMetadata
  pub spec : PodSpec

pub record DevPodSpec : Type 0 where
  pub owner : Text
  pub collaborators : List Text
  pub running : Bool
  pub idle_timeout_seconds : ℕ
  pub persistence : Option PersistenceSpec
  pub exit_on_user_command_exit : Bool
  pub shell : Text
  pub pod : Option PodWorkloadSpec
  pub vm : Option Text

pub record WorkloadRef : Type 0 where
  pub api_version : Text
  pub kind : Text
  pub name : Text

pub record LocalObjectRef : Type 0 where
  pub name : Text

pub record DevPodStatus : Type 0 where
  pub phase : DevPodPhase
  pub endpoint : Text
  pub workload_ref : Option WorkloadRef
  pub persistent_volume_claim_ref : Option LocalObjectRef
  pub last_activity_time : Option ℕ
  pub hibernated_at : Option ℕ
  pub retry_count : ℕ
  pub last_failure_at : Option ℕ
  pub message : Text

pub record DevPod : Type 0 where
  pub metadata : ObjectMeta
  pub spec : DevPodSpec
  pub status : DevPodStatus

-- A comparison of two phases, as of two strings.
unfoldable pub is_running : DevPodPhase → Bool
is_running running = true
is_running _ = false

-- The string of a phase.
abbrev pub phase_text : DevPodPhase → Text
phase_text unset = []
phase_text pending = bytes "Pending"
phase_text running = bytes "Running"
phase_text stopped = bytes "Stopped"
phase_text failed = bytes "Failed"
