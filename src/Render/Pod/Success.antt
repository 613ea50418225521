-- ===== src/Render/Pod/Success.antt =====
-- When a DevPod is rendered.
use devpods.Prelude.{
  ℕ, ◌≡◌, refl, sym, ap, ◌∙◌, subst, inl, inr, Bool, true, false, ◌||◌, some, List, [], ◌∷◌, ◌++◌,
  map, Option-cases, passed, List-cases, Text, text_eq, Text-cases,
}
use devpods.Api.Kube.{Container, PodSpec}
use devpods.Api.DevPods.{DevPod, PersistenceSpec, PodWorkloadSpec}
use devpods.Api.Config.{GatewayConfigSpec}
use devpods.Render.Naming.{backend_port, home_pvc_name}
use devpods.Render.Pod.Target.{Program, program, inject_home-keeps, supervisor_target_keeps}
use devpods.Render.Pod.{
  update_first, inject_home_mount, inject_home, supervisor_target, RenderedPod, add_mount,
  render_pod, volume_home, home_volume, wrap_target_with_supervisor, render_spec,
  inject_host_path_home, wrap, with_supervisor_volumes, bootstrap_init_container, render_workload,
  render_kind, render_containers,
}
use devpods.Render.Pod.Inversion.{rendered}

abbrev pub is_named : Text → List Program → Bool
is_named t [] = false
is_named t (p ∷ ps) = text_eq p.container t || is_named t ps

update_first-finds :
    (f : Container → Container) (target : Text) (cs : List Container)
    → is_named target (map program cs) ≡ true
    → (cs' : List Container) × (update_first target f cs ≡ some cs')
unfolding update_first
update_first-finds f target [] h = cc
update_first-finds f target (c ∷ cs) h = elim (Text-cases c.name target) [
  | inl (same, eq) ↦ (f c ∷ cs, rw eq refl)
  | inr (differ, ne) ↦
      let (ds, e) = update_first-finds f target cs (rw ne at h) in (c ∷ ds, rw (ne, e) refl)
]

inject_home_mount-Succeeds :
    (p : PersistenceSpec) (user : PodSpec)
    → is_named (supervisor_target (some p) user) (map program user.containers) ≡ true
    → (homed : PodSpec) × (inject_home_mount p user ≡ passed homed)
unfolding inject_home_mount supervisor_target
inject_home_mount-Succeeds p user h =
    let mount =
      add_mount (record { name = volume_home; mount_path = p.mount_path; read_only = false }) in
    let (cs, e) = update_first-finds mount (supervisor_target (some p) user) user.containers h in
    (record user { containers = cs }, rw e refl)

inject_home-Succeeds :
    (dp : DevPod) (cfg : GatewayConfigSpec) (user : PodSpec)
    → is_named (supervisor_target dp.spec.persistence user) (map program user.containers) ≡ true
    → (homed : PodSpec) × (inject_home dp cfg user ≡ passed homed)
unfolding inject_home supervisor_target home_pvc_name
inject_home-Succeeds dp cfg user h = elim (Option-cases dp.spec.persistence) [
  | inr (p, e) ↦
      let with_volume = record user { volumes = user.volumes ++ home_volume dp ∷ [] } in
      let named =
        subst (λ o. is_named (supervisor_target o user) (map program user.containers) ≡ true) e h in
      let (homed, made) = inject_home_mount-Succeeds p with_volume named in (homed, rw e made)
  | inl e ↦ elim (Option-cases cfg.home_dir) [
    | inl n ↦ (user, rw (e, n) refl)
    | inr (home, s) ↦ (inject_host_path_home home dp.spec.owner user, rw (e, s) refl)
  ]
]

wrap_target_with_supervisor-Succeeds :
    (dp : DevPod) (port : ℕ) (spec : PodSpec)
    → is_named (supervisor_target dp.spec.persistence spec) (map program spec.containers) ≡ true
    → (wrapped : PodSpec) × (wrap_target_with_supervisor dp port spec ≡ passed wrapped)
unfolding wrap_target_with_supervisor
wrap_target_with_supervisor-Succeeds dp port spec h =
    let (cs, e) =
      update_first-finds (wrap dp port) (supervisor_target dp.spec.persistence spec) spec.containers
        h in
    (record spec { containers = cs }, rw e refl)

render_spec-Succeeds :
    (sum32 : Text → ℕ) (dp : DevPod) (cfg : GatewayConfigSpec) (user : PodSpec)
    → is_named (supervisor_target dp.spec.persistence user) (map program user.containers) ≡ true
    → (spec : PodSpec) × (render_spec sum32 dp cfg user ≡ passed spec)
unfolding render_spec with_supervisor_volumes supervisor_target
render_spec-Succeeds sum32 dp cfg user h =
    let volumed = with_supervisor_volumes dp user in
    let named =
      subst (λ t. is_named t (map program user.containers) ≡ true)
        (supervisor_target_keeps dp.spec.persistence user volumed refl) h in
    let (homed, i) = inject_home-Succeeds dp cfg volumed named in
    let (programs, inits) = inject_home-keeps dp cfg volumed homed i in
    let target = supervisor_target_keeps dp.spec.persistence homed user programs in
    let (wrapped, made) =
      wrap_target_with_supervisor-Succeeds dp (backend_port sum32 dp cfg) homed (
        rw programs
          (subst (λ t. is_named t (map program user.containers) ≡ true) (sym target) h)) in
    (
      record wrapped {
        init_containers = bootstrap_init_container cfg.supervisor_image ∷ wrapped.init_containers;
      },
      rw (i, made) refl,
    )

render_workload-Succeeds :
    (sum32 : Text → ℕ) (dp : DevPod) (cfg : GatewayConfigSpec) (w : PodWorkloadSpec)
    → is_named (supervisor_target dp.spec.persistence w.spec) (map program w.spec.containers) ≡ true
    → (r : RenderedPod) × (render_workload sum32 dp cfg w ≡ passed r)
unfolding render_workload
render_workload-Succeeds sum32 dp cfg w h =
    let (spec, e) = render_spec-Succeeds sum32 dp cfg w.spec h in
    (rendered dp cfg w spec, rw e refl)

render_pod_workload :
    (sum32 : Text → ℕ) (dp : DevPod) (cfg : GatewayConfigSpec) (w : PodWorkloadSpec) (c : Container)
    (cs : List Container)
    → dp.spec.pod ≡ some w
    → w.spec.containers ≡ c ∷ cs
    → render_pod sum32 dp cfg ≡ render_workload sum32 dp cfg w
unfolding render_pod
render_pod_workload sum32 dp cfg w c cs p e =
    ap (render_kind sum32 dp cfg) p ∙ ap (render_containers sum32 dp cfg w) e

-- A DevPod whose workload is a Pod is rendered, when one of the workload's containers has the name of
-- the supervisor's target: the container that persistence names, else the first.
pub render_pod-Succeeds :
    (sum32 : Text → ℕ) (dp : DevPod) (cfg : GatewayConfigSpec) (w : PodWorkloadSpec)
    → dp.spec.pod ≡ some w
    → is_named (supervisor_target dp.spec.persistence w.spec) (map program w.spec.containers) ≡ true
    → (r : RenderedPod) × (render_pod sum32 dp cfg ≡ passed r)
unfolding render_pod
render_pod-Succeeds sum32 dp cfg w p h =
    let (r, e) = render_workload-Succeeds sum32 dp cfg w h in
    elim (List-cases w.spec.containers) [
      | inl none_left ↦ cc
      | inr (c, cs, some_left) ↦ (r, render_pod_workload sum32 dp cfg w c cs p some_left ∙ e)
    ]
