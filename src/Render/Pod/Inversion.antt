-- ===== src/Render/Pod/Inversion.antt =====
-- What a rendered Pod is made of.
use devpods.Prelude.{
  ℕ, ◌≡◌, refl, sym, ap, ◌∙◌, inl, inr, some, List, [], ◌∷◌, Option-cases, passed, passed-injective,
  refused-ne-passed, >>=-passed, Text,
}
use devpods.Api.Kube.{Container, PodSpec}
use devpods.Api.DevPods.{DevPod, PodWorkloadSpec}
use devpods.Api.Config.{GatewayConfigSpec}
use devpods.Render.Naming.{devpod_labels, pod_name, backend_port}
use devpods.Render.Pod.{
  RenderedPod, merge_strings, with_supervisor_volumes, inject_home, wrap_target_with_supervisor,
  bootstrap_init_container, render_spec, render_workload, render_pod, update_first,
  supervisor_target, wrap, render_kind, render_containers,
}

abbrev pub rendered : DevPod → GatewayConfigSpec → PodWorkloadSpec → PodSpec → RenderedPod
rendered dp cfg w spec = record {
  name = pod_name dp;
  namespace = cfg.dev_pod_namespace;
  labels = merge_strings (devpod_labels dp) w.metadata.labels;
  annotations = merge_strings [] w.metadata.annotations;
  spec = spec;
}

module _ (sum32 : Text → ℕ) (dp : DevPod) (cfg : GatewayConfigSpec) where
  workload_cases :
      (r : RenderedPod) (w : PodWorkloadSpec)
      → render_workload sum32 dp cfg w ≡ passed r
      → (spec : PodSpec) × (render_spec sum32 dp cfg w.spec ≡ passed spec)
        × (r ≡ rendered dp cfg w spec)
  unfolding render_workload
  workload_cases r w h =
      let (spec, s, e) = >>=-passed (render_spec sum32 dp cfg w.spec) _ h in
      (spec, s, sym (passed-injective e))

  containers_cases :
      (r : RenderedPod) (w : PodWorkloadSpec) (cs : List Container)
      → dp.spec.pod ≡ some w
      → w.spec.containers ≡ cs
      → render_pod sum32 dp cfg ≡ passed r
      → (spec : PodSpec) × (render_spec sum32 dp cfg w.spec ≡ passed spec)
        × (r ≡ rendered dp cfg w spec)
  unfolding render_pod
  containers_cases r w [] p e h = absurd (
      refused-ne-passed
        (sym (ap (render_kind sum32 dp cfg) p ∙ ap (render_containers sum32 dp cfg w) e) ∙ h))
  containers_cases r w (c ∷ cs) p e h =
      workload_cases r w
        (sym (ap (render_kind sum32 dp cfg) p ∙ ap (render_containers sum32 dp cfg w) e) ∙ h)

  -- A rendered Pod comes from a workload with a container.
  pub render_pod-passed :
      (r : RenderedPod)
      → render_pod sum32 dp cfg ≡ passed r
      → (w : PodWorkloadSpec) × (dp.spec.pod ≡ some w)
        × ((spec : PodSpec) × (render_spec sum32 dp cfg w.spec ≡ passed spec)
            × (r ≡ rendered dp cfg w spec))
  unfolding render_pod
  render_pod-passed r h = elim (Option-cases dp.spec.pod) [
    | inl e ↦ absurd (refused-ne-passed (sym (ap (render_kind sum32 dp cfg) e) ∙ h))
    | inr (w, e) ↦ (w, e, containers_cases r w w.spec.containers e refl h)
  ]

  wrapped_cases :
      (homed spec : PodSpec)
      → wrap_target_with_supervisor dp (backend_port sum32 dp cfg) homed ≡ passed spec
      → (cs : List Container) × (update_first
            (supervisor_target dp.spec.persistence homed)
            (wrap dp (backend_port sum32 dp cfg))
            homed.containers
          ≡ some cs)
        × (spec ≡ record homed { containers = cs })
  unfolding wrap_target_with_supervisor
  wrapped_cases homed spec h =
      let target = supervisor_target dp.spec.persistence homed in
      elim (Option-cases
        (update_first target (wrap dp (backend_port sum32 dp cfg)) homed.containers)) [
          | inl e ↦ absurd (refused-ne-passed (rw (wrap_target_with_supervisor, e) at h))
          | inr (cs, e) ↦ (cs, e, sym (passed-injective (rw (wrap_target_with_supervisor, e) at h)))
        ]

  -- The specification is the user's with the volumes and the home, its target container wrapped, and
  -- the bootstrap container before the user's init containers.
  pub render_spec-passed :
      (user spec : PodSpec)
      → render_spec sum32 dp cfg user ≡ passed spec
      → (homed : PodSpec) × (inject_home dp cfg (with_supervisor_volumes dp user) ≡ passed homed)
        × ((cs : List Container) × (update_first
                (supervisor_target dp.spec.persistence homed)
                (wrap dp (backend_port sum32 dp cfg))
                homed.containers
              ≡ some cs)
            × (spec ≡ record homed {
              containers = cs;
              init_containers =
                  bootstrap_init_container cfg.supervisor_image ∷ homed.init_containers;
            }))
  unfolding render_spec
  render_spec-passed user spec h =
      let (homed, i, rest) =
        >>=-passed (inject_home dp cfg (with_supervisor_volumes dp user)) _ h in
      let (wrapped, w, e) =
        >>=-passed (wrap_target_with_supervisor dp (backend_port sum32 dp cfg) homed) _ rest in
      let (cs, u, k) = wrapped_cases homed wrapped w in
      (homed, i, (cs, u, rw k at (sym (passed-injective e))))
