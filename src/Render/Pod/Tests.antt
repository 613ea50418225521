-- ===== src/Render/Pod/Tests.antt =====
-- A rendered Pod, and instances of the theorems.
use devpods.Prelude.{
  ◌≡◌, refl, some, [], ◌∷◌, map, Outcome, refused, passed, bytes, text_eq, lookup,
}
use devpods.Api.Kube.{Container}
use devpods.Render.Samples.{host_pod, workload, config, app, side}
use devpods.Render.Pod.{
  render_pod, RenderedPod, render_workload, supervisor_target, render_spec, inject_home,
  with_supervisor_volumes, wrap_target_with_supervisor, inject_home_mount, update_first,
  RenderError,
}
use devpods.Render.Pod.Labels.{render_pod-labels}
use devpods.Render.Pod.Target.{IsSupervised, Installs, program, render_pod-IsSupervised}
use devpods.Render.Pod.Inversion.{rendered}
use devpods.Render.Naming.{label_owner, label_devpod, label_managed}
use devpods.Render.Pod.Success.{render_pod-Succeeds}

abbrev or_default : Outcome RenderError RenderedPod → RenderedPod
or_default (passed r) = r
or_default (refused e) = rendered host_pod config workload workload.spec

abbrev pub sample : RenderedPod
sample = or_default (render_pod (λ uid. 1234) host_pod config)

pub sample_ok : render_pod (λ uid. 1234) host_pod config ≡ passed sample
unfolding render_pod render_workload render_spec inject_home with_supervisor_volumes
    wrap_target_with_supervisor inject_home_mount update_first text_eq supervisor_target
sample_ok = refl

render_pod-labels_example :
    (lookup label_owner sample.labels ≡ some (bytes "al"))
    × (lookup label_devpod sample.labels ≡ some (bytes "al-d2"))
    × (lookup label_managed sample.labels ≡ some (bytes "devpod-controller"))
render_pod-labels_example = render_pod-labels (λ uid. 1234) host_pod config sample sample_ok

render_pod-IsSupervised_example :
    IsSupervised (bytes "side") (map program (app ∷ side ∷ [])) (map program sample.spec.containers)
    × ((c : Container) × (sample.spec.init_containers ≡ c ∷ []) × Installs (bytes "sup") c)
unfolding supervisor_target
render_pod-IsSupervised_example =
    render_pod-IsSupervised (λ uid. 1234) host_pod config sample workload refl sample_ok

render_pod-Succeeds_example :
    (r : RenderedPod) × (render_pod (λ uid. 1234) host_pod config ≡ passed r)
unfolding text_eq supervisor_target
render_pod-Succeeds_example = render_pod-Succeeds (λ uid. 1234) host_pod config workload refl refl
