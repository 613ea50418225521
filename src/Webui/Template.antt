-- ===== src/Webui/Template.antt =====
-- internal/webui/template_apply.go. The DevPod that the source changes in place is the result.
pub mod Laws
use devpods.Prelude.{
  ℕ, zero, suc, ◌+◌, ◌-◌, ◌*◌, ◌/◌, ◌%◌, ◌^◌, ◌≤◌, ◌<◌, ◌≡◌, refl, sym, ap, ◌∙◌, subst, ◌≢◌, ◌↔◌,
  ◌⊎◌, inl, inr, Bool, true, false, not, ◌&&◌, ◌||◌, Option, none, some, List, [], ◌∷◌, ◌++◌, map,
  append_assoc, append-nil, arith, ltb, leb, ◌==◌, if◌then◌else◌, ltb→lt, lt→ltb, leb→le, le→leb,
  ==_iff, tests, Bool-cases, Option-cases, and-true, is_none, some-injective, Outcome, refused,
  passed, ◌>>=◌, or_refuse, refuse_if, passed-injective, refused-ne-passed, Outcome-cases,
  >>=-passed, or_refuse-passed, refuse_if-passed, guarded, length, length-append, List-cases, all,
  All, All-append, Text, bytes, text_eq, text_eq_refl, text_eq_iff, Text-cases, text_neq-sym,
  is_empty, has_prefix, contains, itoa, digits, Dict, lookup, insert, remove, lookup-insert,
  lookup-remove,
}
use devpods.Api.Kube.{Container}
use devpods.Api.DevPods.{DevPod, PodWorkloadSpec, PersistenceSpec}
use devpods.Api.Templates.{BindingSpec, PodPresetSpec, DevPodTemplateSpec}
use devpods.Render.Pod.{update_first}
use devpods.Webui.Kore.{BindingError, validate_binding}

pub data TemplateError : Type 0 where
  empty_template preset_with_pod overlay_without_pod : TemplateError
  bad_binding : BindingError → TemplateError
  target_not_found : Text → TemplateError

-- `dst[k] = v` for each entry of the source.
unfoldable pub put_all {ℓ} : {V : Type ℓ} → Dict V → Dict V → Dict V
put_all dst [] = dst
put_all dst ((k, v) ∷ src) = put_all (insert k v dst) src

-- The part of the preset; the persistence and the shell of the request stay.
unfoldable pub with_preset : DevPod → PodPresetSpec → DevPod
with_preset dp p = record dp {
  spec = record dp.spec {
    pod = some p.pod;
    persistence = elim dp.spec.persistence [ none ↦ p.persistence | some own ↦ some own ];
    shell = if is_empty dp.spec.shell then p.shell else dp.spec.shell;
  };
}

unfoldable pub apply_preset : DevPod → Option PodPresetSpec → Outcome TemplateError DevPod
apply_preset dp none = passed dp
apply_preset dp (some p) = elim dp.spec.pod [
  | none ↦ passed (with_preset dp p)
  | some w ↦ refused preset_with_pod
]

pub add_resources : BindingSpec → Container → Container
add_resources b c = record c {
  requests = put_all c.requests b.requests;
  limits = put_all c.limits b.limits;
}

-- The container that takes the resources of the binding, changed.
pub bind_container :
    BindingSpec → Option PersistenceSpec → List Container → Outcome TemplateError (List Container)
unfolding add_resources
bind_container b persistence [] = refused overlay_without_pod
bind_container b none (c ∷ cs) = passed (add_resources b c ∷ cs)
bind_container b (some p) (c ∷ cs) =
    if is_empty p.target_container
    then passed (add_resources b c ∷ cs)
    else elim (update_first p.target_container (add_resources b) (c ∷ cs)) [
      | none ↦ refused (target_not_found p.target_container)
      | some cs' ↦ passed cs'
    ]

unfoldable pub with_binding : DevPod → BindingSpec → PodWorkloadSpec → List Container → DevPod
with_binding dp b w cs = record dp {
  spec = record dp.spec {
    pod = some (record w {
      metadata = record w.metadata { annotations = put_all w.metadata.annotations b.annotations };
      spec = record w.spec { containers = cs };
    });
  };
}

pub bind_pod : DevPod → BindingSpec → Option PodWorkloadSpec → Outcome TemplateError DevPod
unfolding bind_container with_binding
bind_pod dp b none = refused overlay_without_pod
bind_pod dp b (some w) = elim (bind_container b dp.spec.persistence w.spec.containers) [
  | refused e ↦ refused e
  | passed cs ↦ passed (with_binding dp b w cs)
]

unfoldable pub apply_binding :
    (Text → Option ℕ) → DevPod → Option BindingSpec → Outcome TemplateError DevPod
unfolding bind_pod
apply_binding atoi dp none = passed dp
apply_binding atoi dp (some b) = elim (validate_binding atoi b) [
  | some e ↦ refused (bad_binding e)
  | none ↦ bind_pod dp b dp.spec.pod
]

-- ApplyTemplate.
unfoldable pub apply_template :
    (Text → Option ℕ) → DevPod → DevPodTemplateSpec → Outcome TemplateError DevPod
unfolding apply_preset apply_binding
apply_template atoi dp tpl =
    if is_none tpl.pod_preset && is_none tpl.binding
    then refused empty_template
    else elim (apply_preset dp tpl.pod_preset) [
      | refused e ↦ refused e
      | passed dp' ↦ apply_binding atoi dp' tpl.binding
    ]
