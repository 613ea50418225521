-- ===== src/Render/Naming.antt =====
-- internal/render/render.go: the names, the labels and the port of what a DevPod is rendered to. The
-- FNV-1a hash of the standard library is a parameter.
pub mod Laws
mod Tests
use devpods.Prelude.{
  ℕ, zero, suc, ◌+◌, ◌-◌, ◌*◌, ◌/◌, ◌%◌, ◌^◌, ◌≤◌, ◌<◌, ◌≡◌, refl, sym, ap, ◌∙◌, subst, ◌≢◌, ◌↔◌,
  ◌⊎◌, inl, inr, Bool, true, false, not, ◌&&◌, ◌||◌, Option, none, some, List, [], ◌∷◌, ◌++◌, map,
  append_assoc, append-nil, arith, ltb, leb, ◌==◌, if◌then◌else◌, ltb→lt, lt→ltb, leb→le, le→leb,
  ==_iff, tests, Bool-cases, Option-cases, and-true, is_none, some-injective, length, length-append,
  all, All, All-append, Text, bytes, text_eq, text_eq_refl, text_eq_iff, Text-cases, is_empty,
  has_prefix, contains, itoa, digits, Dict, lookup, insert, remove, lookup-insert, lookup-remove,
}
use devpods.Api.DevPods.{DevPod, PodWorkloadSpec}
use devpods.Api.Config.{GatewayConfigSpec}

abbrev pub label_owner : Text
label_owner = bytes "devpod.io/owner"

abbrev pub label_devpod : Text
label_devpod = bytes "devpod.io/devpod"

abbrev pub label_managed : Text
label_managed = bytes "app.kubernetes.io/managed-by"

unfoldable pub owner_labels : Text → Dict Text
owner_labels owner = (label_owner, owner) ∷ (label_managed, bytes "devpod-controller") ∷ []

unfoldable pub devpod_labels : DevPod → Dict Text
unfolding owner_labels
devpod_labels dp = insert label_devpod dp.metadata.name (owner_labels dp.spec.owner)

unfoldable pub pod_name : DevPod → Text
pod_name dp = dp.metadata.name

unfoldable pub service_name : DevPod → Text
unfolding pod_name
service_name dp = pod_name dp

unfoldable pub host_key_secret_name : DevPod → Text
unfolding pod_name
host_key_secret_name dp = pod_name dp ++ bytes "-hostkey"

unfoldable pub home_pvc_name : DevPod → Text
unfolding pod_name
home_pvc_name dp = pod_name dp ++ bytes "-home"

unfoldable pub owner_net_pol_name : Text → Text
owner_net_pol_name owner = bytes "devpod-allow-" ++ owner

unfoldable pub uses_host_network : Option PodWorkloadSpec → Bool
uses_host_network none = false
uses_host_network (some w) = w.spec.host_network

-- `sum32` is hash/fnv's New32a over the bytes of the UID. The sum is below 2 ^ 32, and the addition
-- in int32 does not overflow.
unfoldable pub backend_port : (Text → ℕ) → DevPod → GatewayConfigSpec → ℕ
unfolding uses_host_network
backend_port sum32 dp cfg =
    let def = if cfg.backend_port == 0 then 2222 else cfg.backend_port in
    if not (uses_host_network dp.spec.pod)
    then def
    else if is_empty dp.metadata.uid
    then def
    else 65000 + sum32 dp.metadata.uid % 500
