-- ===== src/Api/Kube.antt =====
-- The Kubernetes types that the objects of api/v1alpha1 hold, with the fields that the repository's
-- code reads or writes; and the results of a read through the API. A quantity is a signed count of
-- billionths.
use devpods.Prelude.{ℤ, ℕ, Bool, Option, List, [], Text, bytes, Dict, ◌≡◌, ◌⊎◌, inl, inr, refl}

-- What a read of one object returns: apierrors.IsNotFound tells the second from the third.
pub data GetResult {ℓ} (A : Type ℓ) : Type ℓ where
  found : A → GetResult A
  not_found : GetResult A
  get_failed : Text → GetResult A

pub GetResult-cases {ℓ} :
    {A : Type ℓ} (r : GetResult A)
    → ((a : A) × (r ≡ found a)) ⊎ ((r ≡ not_found) ⊎ ((err : Text) × (r ≡ get_failed err)))
GetResult-cases (found a) = inl (a, refl)
GetResult-cases not_found = inr (inl refl)
GetResult-cases (get_failed err) = inr (inr (err, refl))

pub record EnvVar : Type 0 where
  pub name : Text
  pub value : Text

pub record VolumeMount : Type 0 where
  pub name : Text
  pub mount_path : Text
  pub read_only : Bool

pub data VolumeSource : Type 0 where
  empty_dir : (size_limit : ℕ) → VolumeSource
  secret : (secret_name : Text) → (default_mode : ℕ) → VolumeSource
  claim : (claim_name : Text) → VolumeSource
  secret_items : (secret_name : Text) → (items : List (Text × Text)) → VolumeSource
  host_path : (path : Text) → (kind : Text) → VolumeSource
  other : Text → VolumeSource

pub record Volume : Type 0 where
  pub name : Text
  pub source : VolumeSource

pub record Container : Type 0 where
  pub name : Text
  pub image : Text
  pub command : List Text
  pub args : List Text
  pub env : List EnvVar
  pub volume_mounts : List VolumeMount
  pub limits : Dict ℤ
  pub requests : Dict ℤ

pub record PodSpec : Type 0 where
  pub containers : List Container
  pub init_containers : List Container
  pub volumes : List Volume
  pub host_network : Bool
  pub node_name : Text

pub record OwnerReference : Type 0 where
  pub kind : Text
  pub uid : Text

-- The identity of an object, and what the finalizers and owner references need of it.
pub record ObjectMeta : Type 0 where
  pub name : Text
  pub namespace : Text
  pub uid : Text
  pub labels : Dict Text
  pub annotations : Dict Text
  pub finalizers : List Text
  pub deletion_timestamp : Option ℕ
  pub owner_references : List OwnerReference

-- The phase of a Pod. The code tells Running and Failed from the others.
pub data PodPhase : Type 0 where
  pod_unset pod_pending pod_running pod_succeeded pod_failed pod_unknown : PodPhase

-- The string of a phase.
abbrev pub pod_phase_text : PodPhase → Text
pod_phase_text pod_unset = []
pod_phase_text pod_pending = bytes "Pending"
pod_phase_text pod_running = bytes "Running"
pod_phase_text pod_succeeded = bytes "Succeeded"
pod_phase_text pod_failed = bytes "Failed"
pod_phase_text pod_unknown = bytes "Unknown"

pub record Terminated : Type 0 where
  pub reason : Text
  pub message : Text

pub record ContainerStatus : Type 0 where
  pub name : Text
  pub container_id : Text
  pub terminated : Option Terminated

pub record PodStatus : Type 0 where
  pub phase : PodPhase
  pub pod_ip : Text
  pub message : Text
  pub reason : Text
  pub container_statuses : List ContainerStatus

-- A Pod as it is read back.
pub record Pod : Type 0 where
  pub metadata : ObjectMeta
  pub spec : PodSpec
  pub status : PodStatus
