-- ===== src/Webui/Template/Laws.antt =====
-- What stamping a template leaves as it was.
use devpods.Prelude.{
  ℕ, ◌≡◌, refl, ◌∙◌, subst, inl, inr, ◌&&◌, Option, none, some, Bool-cases, Option-cases, is_none,
  passed, passed-injective, refused-ne-passed, Outcome-cases, Text,
}
use devpods.Api.DevPods.{DevPod, PodWorkloadSpec}
use devpods.Api.Templates.{BindingSpec, PodPresetSpec, DevPodTemplateSpec}
use devpods.Webui.Template.{
  apply_preset, apply_binding, bind_pod, bind_container, with_binding, with_preset, apply_template,
}
use devpods.Webui.Kore.{validate_binding}

abbrev Keeps : DevPod → DevPod → Type 0
Keeps a b = (b.spec.owner ≡ a.spec.owner) × (b.metadata ≡ a.metadata)

preset-Keeps :
    (dp : DevPod) (o : Option PodPresetSpec) (out : DevPod)
    → apply_preset dp o ≡ passed out
    → Keeps dp out
unfolding apply_preset with_preset
preset-Keeps dp none out h = subst (Keeps dp) (passed-injective h) (refl, refl)
preset-Keeps dp (some p) out h = elim (Option-cases dp.spec.pod) [
  | inl e ↦ subst (Keeps dp) (passed-injective (rw e at h)) (refl, refl)
  | inr (w, e) ↦ absurd (refused-ne-passed (rw e at h))
]

pod-Keeps :
    (dp : DevPod) (b : BindingSpec) (o : Option PodWorkloadSpec) (out : DevPod)
    → bind_pod dp b o ≡ passed out
    → Keeps dp out
unfolding bind_pod with_binding
pod-Keeps dp b none out h = cc
pod-Keeps dp b (some w) out h =
    elim (Outcome-cases (bind_container b dp.spec.persistence w.spec.containers)) [
      | inl (cs, e) ↦ subst (Keeps dp) (passed-injective (rw (bind_pod, e) at h)) (refl, refl)
      | inr (err, e) ↦ absurd (refused-ne-passed (rw (bind_pod, e) at h))
    ]

binding-Keeps :
    (atoi : Text → Option ℕ) (dp : DevPod) (o : Option BindingSpec) (out : DevPod)
    → apply_binding atoi dp o ≡ passed out
    → Keeps dp out
unfolding apply_binding
binding-Keeps atoi dp none out h = subst (Keeps dp) (passed-injective h) (refl, refl)
binding-Keeps atoi dp (some b) out h = elim (Option-cases (validate_binding atoi b)) [
  | inl e ↦ pod-Keeps dp b dp.spec.pod out (rw (apply_binding, e) at h)
  | inr (err, e) ↦ absurd (refused-ne-passed (rw (apply_binding, e) at h))
]

pub apply_template-Keeps :
    (atoi : Text → Option ℕ) (dp : DevPod) (tpl : DevPodTemplateSpec) (out : DevPod)
    → apply_template atoi dp tpl ≡ passed out
    → Keeps dp out
unfolding apply_template
apply_template-Keeps atoi dp tpl out h =
    elim (Bool-cases (is_none tpl.pod_preset && is_none tpl.binding)) [
      | inl empty ↦ absurd (refused-ne-passed (rw empty at h))
      | inr full ↦ elim (Outcome-cases (apply_preset dp tpl.pod_preset)) [
        | inl (mid, e) ↦
            let (o, m) = preset-Keeps dp tpl.pod_preset mid e in
            let (o', m') = binding-Keeps atoi mid tpl.binding out (rw (full, e) at h) in
            (o' ∙ o, m' ∙ m)
        | inr (err, e) ↦ absurd (refused-ne-passed (rw (full, e) at h))
      ]
    ]
