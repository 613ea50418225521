-- ===== src/Api/Templates.antt =====
-- api/v1alpha1/devpodtemplate_types.go, without the texts that the picker shows.
use devpods.Prelude.{ℤ, Option, Text, Dict}
use devpods.Api.DevPods.{PodWorkloadSpec, PersistenceSpec}

pub record BindingSpec : Type 0 where
  pub annotations : Dict Text
  pub limits : Dict ℤ
  pub requests : Dict ℤ

pub record PodPresetSpec : Type 0 where
  pub pod : PodWorkloadSpec
  pub shell : Text
  pub persistence : Option PersistenceSpec

pub record DevPodTemplateSpec : Type 0 where
  pub binding : Option BindingSpec
  pub pod_preset : Option PodPresetSpec
