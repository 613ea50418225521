-- ===== src/Render/Network/Tests.antt =====
-- An instance of the theorem on the policies.
use devpods.Prelude.{◌≡◌, refl, true, false, [], ◌∷◌, Text, bytes, text_eq, Dict, lookup}
use devpods.Render.Samples.{host_pod, config}
use devpods.Render.Naming.{backend_port}
use devpods.Render.Pod.Tests.{sample, sample_ok}
use devpods.Render.Network.{name_of_namespace}
use devpods.Render.Network.Isolation.{
  Source, selects, admits, pod_source, policy_of, owner_policy-Isolates,
}

abbrev devpods_namespace : Dict Text
devpods_namespace = (name_of_namespace, bytes "devpods") ∷ []

abbrev gateway : Source
gateway = record {
  namespace = bytes "gw";
  namespace_labels = (name_of_namespace, bytes "gw") ∷ [];
  labels = [];
}

owner_policy-Isolates_example :
    (selects (policy_of (λ uid. 1234) host_pod config (bytes "gw")).pod_selector sample.labels
      ≡ true)
    × (admits
          (policy_of (λ uid. 1234) host_pod config (bytes "gw"))
          (pod_source sample devpods_namespace)
          (bytes "TCP")
          22
        ≡ true)
    × (admits (policy_of (λ uid. 1234) host_pod config (bytes "gw")) gateway (bytes "TCP") 22
        ≡ false)
unfolding text_eq backend_port lookup
owner_policy-Isolates_example =
    owner_policy-Isolates (λ uid. 1234) config host_pod host_pod sample (bytes "gw")
      devpods_namespace gateway (bytes "TCP") 22 sample_ok refl refl refl refl
