-- ===== src/Render/Pod/Target.antt =====
-- Which container of a rendered Pod runs the supervisor, and what the others run.
use devpods.Prelude.{
  bytes, ℕ, ◌≡◌, refl, sym, ap, ◌∙◌, subst, ◌≢◌, inl, inr, false, Option, none, some, List, [], ◌∷◌,
  ◌++◌, map, if◌then◌else◌, Option-cases, some-injective, passed, passed-injective,
  refused-ne-passed, All, Text, Text-cases, is_empty,
}
use mathlib.Core.Option.{none-ne-some}
use mathlib.Core.List.{map-append}
use devpods.Api.Kube.{Container, PodSpec}
use devpods.Api.DevPods.{DevPod, PersistenceSpec, PodWorkloadSpec}
use devpods.Api.Config.{GatewayConfigSpec}
use devpods.Render.Naming.{backend_port}
use devpods.Render.Pod.{
  supervisor_path, update_first, inject_home, supervisor_target, RenderedPod, render_pod,
  bootstrap_init_container, change_first, inject_home_mount, inject_host_path_home, first_name,
  with_supervisor_volumes, add_mount, volume_home, render_spec, wrap,
}
use devpods.Render.Pod.Inversion.{render_pod-passed, render_spec-passed}

-- The name of a container and the program that it runs.
pub record Program : Type 0 where
  pub container : Text
  pub command : List Text
  pub args : List Text

abbrev pub program : Container → Program
program c = record { container = c.name; command = c.command; args = c.args }

-- One program of the list, the first in a container of the name, is run by the supervisor.
abbrev pub IsSupervised : Text → List Program → List Program → Type 0
IsSupervised target ps qs =
    (before after : List Program) × (p : Program) × (ps ≡ before ++ p ∷ after)
    × (qs
        ≡ before
          ++ record {
            container = target;
            command = bytes "/opt/devpod/devpod-supervisor" ∷ [];
            args = p.command ++ p.args;
          }
            ∷ after)
    × (p.container ≡ target)
    × All (λ q. q.container ≢ target) before

-- Updating a container in a way that keeps its program keeps the programs.
update_first-keeps :
    (f : Container → Container)
    → ((c : Container) → program (f c) ≡ program c)
    → (target : Text) (cs cs' : List Container) → update_first target f cs ≡ some cs'
    → map program cs' ≡ map program cs
unfolding update_first
update_first-keeps f keeps target [] cs' h = absurd (none-ne-some _ h)
update_first-keeps f keeps target (c ∷ cs) cs' h = elim (Text-cases c.name target) [
  | inl (same, eq) ↦ rw (sym (some-injective (rw eq at h)), map, keeps c) refl
  | inr (differ, ne) ↦ elim (Option-cases (update_first target f cs)) [
    | inl e ↦ absurd (none-ne-some _ (rw (ne, e) at h))
    | inr (ds, e) ↦
        rw (sym (some-injective (rw (ne, e) at h)), map, update_first-keeps f keeps target cs ds e)
          refl
  ]
]

-- A successful update changes the first container of the name.
update_first-splits :
    (f : Container → Container) (target : Text) (cs cs' : List Container)
    → update_first target f cs ≡ some cs'
    → (before after : List Container) × (c : Container) × (cs ≡ before ++ c ∷ after)
      × (cs' ≡ before ++ f c ∷ after)
      × (c.name ≡ target)
      × All (λ d. d.name ≢ target) before
unfolding update_first
update_first-splits f target [] cs' h = absurd (none-ne-some _ h)
update_first-splits f target (c ∷ cs) cs' h = elim (Text-cases c.name target) [
  | inl (same, eq) ↦ ([], cs, c, refl, sym (some-injective (rw eq at h)), same, tt)
  | inr (differ, ne) ↦ elim (Option-cases (update_first target f cs)) [
    | inl e ↦ absurd (none-ne-some _ (rw (ne, e) at h))
    | inr (ds, e) ↦
        let (before, after, d, split, made, name, others) = update_first-splits f target cs ds e in
        (
          c ∷ before,
          after,
          d,
          ap (λ l. c ∷ l) split,
          sym (some-injective (rw (ne, e) at h)) ∙ ap (λ l. c ∷ l) made,
          name,
          (differ, others),
        )
  ]
]

All-program :
    (target : Text) (cs : List Container)
    → All (λ d. d.name ≢ target) cs
    → All (λ q. q.container ≢ target) (map program cs)
All-program target [] h = tt
All-program target (c ∷ cs) (h, hs) = (h, All-program target cs hs)

change_first-program :
    (f : Container → Container)
    → ((c : Container) → program (f c) ≡ program c)
    → (cs : List Container) → map program (change_first f cs) ≡ map program cs
unfolding change_first
change_first-program f keeps [] = refl
change_first-program f keeps (c ∷ cs) = rw (map, keeps c) refl

inject_home_mount-keeps :
    (p : PersistenceSpec) (user homed : PodSpec)
    → inject_home_mount p user ≡ passed homed
    → (map program homed.containers ≡ map program user.containers)
      × (homed.init_containers ≡ user.init_containers)
unfolding inject_home_mount add_mount
inject_home_mount-keeps p user homed h =
    let target =
      if is_empty p.target_container then first_name user.containers else p.target_container in
    let mount =
      add_mount (record { name = volume_home; mount_path = p.mount_path; read_only = false }) in
    elim (Option-cases (update_first target mount user.containers)) [
      | inl e ↦ absurd (refused-ne-passed (rw e at h))
      | inr (cs, e) ↦
          let eq = sym (passed-injective (rw e at h)) in
          rw eq (update_first-keeps mount (λ c. refl) target user.containers cs e, refl)
    ]

-- The home that is injected leaves the programs as they are, and the init containers.
pub inject_home-keeps :
    (dp : DevPod) (cfg : GatewayConfigSpec) (user homed : PodSpec)
    → inject_home dp cfg user ≡ passed homed
    → (map program homed.containers ≡ map program user.containers)
      × (homed.init_containers ≡ user.init_containers)
unfolding inject_home inject_host_path_home add_mount
inject_home-keeps dp cfg user homed h = elim (Option-cases dp.spec.persistence) [
  | inr (p, e) ↦ inject_home_mount-keeps p _ homed (rw e at h)
  | inl e ↦ elim (Option-cases cfg.home_dir) [
    | inl n ↦ rw (sym (passed-injective (rw (e, n) at h))) (refl, refl)
    | inr (home, s) ↦
        rw (sym (passed-injective (rw (e, s) at h)))
          (change_first-program _ (λ c. refl) user.containers, refl)
  ]
]

first_container : List Program → Text
first_container [] = []
first_container (p ∷ _) = p.container

first_name-program : (cs : List Container) → first_name cs ≡ first_container (map program cs)
unfolding first_container
first_name-program [] = refl
first_name-program (c ∷ cs) = refl

pub supervisor_target_keeps :
    (p : Option PersistenceSpec) (a b : PodSpec)
    → map program a.containers ≡ map program b.containers
    → supervisor_target p a ≡ supervisor_target p b
unfolding supervisor_target
supervisor_target_keeps none a b h =
    first_name-program a.containers ∙ ap first_container h ∙ sym (first_name-program b.containers)
supervisor_target_keeps (some p) a b h =
    let first =
      first_name-program a.containers
      ∙ ap first_container h
      ∙ sym (first_name-program b.containers) in
    ap (λ n. if is_empty p.target_container then n else p.target_container) first

wrap-IsSupervised :
    (dp : DevPod) (port : ℕ) (target : Text) (cs cs' : List Container)
    → update_first target (wrap dp port) cs ≡ some cs'
    → IsSupervised target (map program cs) (map program cs')
unfolding wrap
wrap-IsSupervised dp port target cs cs' h =
    let (before, after, c, split, made, name, others) =
      update_first-splits (wrap dp port) target cs cs' h in
    (
      map program before,
      map program after,
      program c,
      ap (map program) split ∙ map-append program before (c ∷ after),
      ap (map program) made
          ∙ map-append program before (wrap dp port c ∷ after)
          ∙ ap
              (λ n.
                map program before
                ++ record {
                  container = n;
                  command = supervisor_path ∷ [];
                  args = c.command ++ c.args;
                }
                  ∷ map program after)
              name,
      name,
      All-program target before others,
    )

-- The container that the supervisor runs in: the one that the persistence names, or else the first.
abbrev pub first_of : List Container → Text
first_of [] = []
first_of (c ∷ _) = c.name

abbrev pub named_or : Text → Text → Text
named_or [] def = def
named_or (b ∷ bs) def = b ∷ bs

abbrev pub target_of : Option PersistenceSpec → List Container → Text
target_of none cs = first_of cs
target_of (some p) cs = named_or p.target_container (first_of cs)

named_or_lem : (t def : Text) → (if is_empty t then def else t) ≡ named_or t def
named_or_lem [] def = refl
named_or_lem (b ∷ bs) def = refl

first_of_lem : (cs : List Container) → first_name cs ≡ first_of cs
first_of_lem [] = refl
first_of_lem (c ∷ cs) = refl

supervisor_target_lem :
    (p : Option PersistenceSpec) (spec : PodSpec)
    → supervisor_target p spec ≡ target_of p spec.containers
unfolding supervisor_target
supervisor_target_lem none spec = first_of_lem spec.containers
supervisor_target_lem (some p) spec =
    named_or_lem p.target_container (first_name spec.containers)
    ∙ ap (named_or p.target_container) (first_of_lem spec.containers)

-- A container that runs `bootstrap` of the supervisor from the image, and is told to copy /opt/devpod to
-- /devpod-bin, where the volume of the supervisor is mounted for writing.
abbrev pub Installs : Text → Container → Type 0
Installs image c =
    (c.image ≡ image)
    × (c.command ≡ bytes "/opt/devpod/devpod-supervisor" ∷ bytes "bootstrap" ∷ [])
    × (c.args ≡ [])
    × (c.env
        ≡ record { name = bytes "SUPERVISOR_BOOTSTRAP_SRC"; value = bytes "/opt/devpod" }
          ∷ record { name = bytes "SUPERVISOR_BOOTSTRAP_DST"; value = bytes "/devpod-bin" }
          ∷ [])
    × (c.volume_mounts
        ≡ record { name = bytes "devpod-bin"; mount_path = bytes "/devpod-bin"; read_only = false }
          ∷ [])

bootstrap_init_container-Installs : (image : Text) → Installs image (bootstrap_init_container image)
unfolding bootstrap_init_container
bootstrap_init_container-Installs image = (refl, refl, refl, refl, refl)

-- A rendered Pod runs the programs of the workload's containers, in their order and under their
-- names, but for the first container that has the target's name, which the persistence gives or which is
-- that of the first container: there /opt/devpod/devpod-supervisor runs, with the user's command and
-- arguments as its arguments. Before the workload's init containers comes one that runs the bootstrap
-- command of the supervisor from the configured image.
pub render_pod-IsSupervised :
    (sum32 : Text → ℕ) (dp : DevPod) (cfg : GatewayConfigSpec) (r : RenderedPod)
    (w : PodWorkloadSpec)
    → dp.spec.pod ≡ some w
    → render_pod sum32 dp cfg ≡ passed r
    → IsSupervised
        (target_of dp.spec.persistence w.spec.containers)
        (map program w.spec.containers)
        (map program r.spec.containers)
      × ((c : Container) × (r.spec.init_containers ≡ c ∷ w.spec.init_containers)
          × Installs cfg.supervisor_image c)
unfolding with_supervisor_volumes
render_pod-IsSupervised sum32 dp cfg r w p h =
    let (w', p', (spec, s, r_eq)) = render_pod-passed sum32 dp cfg r h in
    let same = some-injective (sym p' ∙ p) in
    let (homed, i, (cs, u, spec_eq)) =
      render_spec-passed sum32 dp cfg w.spec spec
        (subst (λ v. render_spec sum32 dp cfg v.spec ≡ passed spec) same s) in
    let (programs, inits) = inject_home-keeps dp cfg (with_supervisor_volumes dp w.spec) homed i in
    let target =
      supervisor_target_keeps dp.spec.persistence homed w.spec programs
      ∙ supervisor_target_lem dp.spec.persistence w.spec in
    let wrapped =
      wrap-IsSupervised dp (backend_port sum32 dp cfg) (supervisor_target dp.spec.persistence homed)
        homed.containers cs u in
    let made = ap (λ q. q.spec) r_eq ∙ spec_eq in
    rw made (
      subst (λ t. IsSupervised t (map program w.spec.containers) (map program cs)) target
          (subst
            (λ ps. IsSupervised (supervisor_target dp.spec.persistence homed) ps (map program cs))
            programs wrapped),
      (
        bootstrap_init_container cfg.supervisor_image,
        ap (λ l. bootstrap_init_container cfg.supervisor_image ∷ l) inits,
        bootstrap_init_container-Installs cfg.supervisor_image,
      ),
    )
