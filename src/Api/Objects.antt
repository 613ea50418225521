-- ===== src/Api/Objects.antt =====
-- The Kubernetes objects that internal/render produces, with the fields that it fills in. The type of
-- a volume claim's access mode, of a protocol and of a policy is a string there and a text here.
use devpods.Prelude.{ℤ, ℕ, Bool, Option, List, Text, Dict}
use devpods.Api.Kube.{ObjectMeta, PodSpec}

pub record ServicePort : Type 0 where
  pub name : Text
  pub port : ℕ
  pub target_port : ℕ
  pub protocol : Text

pub record Service : Type 0 where
  pub metadata : ObjectMeta
  pub cluster_ip : Text
  pub selector : Dict Text
  pub ports : List ServicePort

pub record Claim : Type 0 where
  pub metadata : ObjectMeta
  pub access_modes : List Text
  pub storage : ℤ
  pub storage_class_name : Option Text

pub record Secret : Type 0 where
  pub metadata : ObjectMeta
  pub kind : Text
  pub contents : Dict Text

pub record PolicyPort : Type 0 where
  pub protocol : Text
  pub port : ℕ

pub record IpBlock : Type 0 where
  pub cidr : Text
  pub except : List Text

-- A selector is the map of its matchLabels.
pub record PolicyPeer : Type 0 where
  pub pod_selector : Option (Dict Text)
  pub namespace_selector : Option (Dict Text)
  pub ip_block : Option IpBlock

-- A rule for ingress, whose peers are its `From`, or for egress, whose peers are its `To`.
pub record PolicyRule : Type 0 where
  pub peers : List PolicyPeer
  pub ports : List PolicyPort

pub record NetworkPolicy : Type 0 where
  pub metadata : ObjectMeta
  pub pod_selector : Dict Text
  pub policy_types : List Text
  pub ingress : List PolicyRule
  pub egress : List PolicyRule

pub record Job : Type 0 where
  pub metadata : ObjectMeta
  pub ttl_seconds_after_finished : ℕ
  pub backoff_limit : ℕ
  pub restart_policy : Text
  pub termination_message_path : Text
  pub termination_message_policy : Text
  pub template : PodSpec

-- The condition of a Job, by its type and whether its status is True.
pub data JobConditionType : Type 0 where
  job_complete job_failed job_other : JobConditionType

pub record JobCondition : Type 0 where
  pub kind : JobConditionType
  pub is_true : Bool
  pub message : Text

-- A Job as it is read back.
pub record LiveJob : Type 0 where
  pub metadata : ObjectMeta
  pub conditions : List JobCondition
