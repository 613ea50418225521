-- ===== src/Render/Pod/Labels.antt =====
-- The labels of a rendered Pod: the user's yield to the DevPod's own.
use mathlib.Core.Option.{none-ne-some}
use devpods.Render.Pod.Inversion.{render_pod-passed}
use devpods.Prelude.{
  ℕ, ◌≡◌, refl, sym, ◌∙◌, inl, inr, some, [], ◌∷◌, Option-cases, passed, Text, bytes, text_eq,
  Text-cases, Dict, lookup, insert, lookup-insert,
}
use devpods.Api.DevPods.{DevPod}
use devpods.Api.Config.{GatewayConfigSpec}
use devpods.Render.Naming.{label_owner, label_devpod, label_managed, devpod_labels}
use devpods.Render.Pod.{RenderedPod, merge_strings, render_pod}

merge_keeps :
    (k : Text) (dst src : Dict Text) (v : Text)
    → lookup k dst ≡ some v
    → lookup k (merge_strings dst src) ≡ some v
unfolding merge_strings
merge_keeps k dst [] v h = h
merge_keeps k dst ((j, w) ∷ src) v h = elim (Option-cases (lookup j dst)) [
  | inr (x, taken) ↦ rw taken (merge_keeps k dst src v h)
  | inl free ↦ elim (Text-cases j k) [
    | inl (same, eq) ↦ absurd (none-ne-some v (sym (rw same at free) ∙ h))
    | inr (differ, ne) ↦
        rw free (merge_keeps k (insert j w dst) src v (rw (lookup-insert j k w dst, ne) h))
  ]
]

reserved :
    (dp : DevPod)
    → (lookup label_owner (devpod_labels dp) ≡ some dp.spec.owner)
      × (lookup label_devpod (devpod_labels dp) ≡ some dp.metadata.name)
      × (lookup label_managed (devpod_labels dp) ≡ some (bytes "devpod-controller"))
unfolding devpod_labels lookup insert text_eq
reserved dp = (refl, refl, refl)

-- No label of the user's overrides the three by which the Service and the network policies select a
-- Pod: whatever the workload asks for, they name the owner, the DevPod and the controller.
pub render_pod-labels :
    (sum32 : Text → ℕ) (dp : DevPod) (cfg : GatewayConfigSpec) (r : RenderedPod)
    → render_pod sum32 dp cfg ≡ passed r
    → (lookup label_owner r.labels ≡ some dp.spec.owner)
      × (lookup label_devpod r.labels ≡ some dp.metadata.name)
      × (lookup label_managed r.labels ≡ some (bytes "devpod-controller"))
render_pod-labels sum32 dp cfg r h =
    let (w, p, (spec, s, e)) = render_pod-passed sum32 dp cfg r h in
    let (a, b, c) = reserved dp in
    rw e (merge_keeps _ _ _ _ a, merge_keeps _ _ _ _ b, merge_keeps _ _ _ _ c)
