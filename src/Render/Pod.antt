-- ===== src/Render/Pod.antt =====
-- internal/render/pod.go. The fresh copy that the code takes of the user's specification is the
-- value itself. The hash of the backend port is a parameter, and int32 values are printed by itoa.
pub mod Inversion
pub mod Labels
pub mod Target
pub mod Success
pub mod Tests
use devpods.Prelude.{
  ℕ, zero, suc, ◌+◌, ◌-◌, ◌*◌, ◌/◌, ◌%◌, ◌^◌, ◌≤◌, ◌<◌, ◌≡◌, refl, sym, ap, ◌∙◌, subst, ◌≢◌, ◌↔◌,
  ◌⊎◌, inl, inr, Bool, true, false, not, ◌&&◌, ◌||◌, Option, none, some, List, [], ◌∷◌, ◌++◌, map,
  append_assoc, append-nil, arith, ltb, leb, ◌==◌, if◌then◌else◌, ltb→lt, lt→ltb, leb→le, le→leb,
  ==_iff, tests, Bool-cases, Option-cases, and-true, is_none, some-injective, Outcome, refused,
  passed, ◌>>=◌, or_refuse, refuse_if, passed-injective, refused-ne-passed, Outcome-cases,
  >>=-passed, or_refuse-passed, refuse_if-passed, guarded, length, length-append, List-cases, all,
  All, All-append, Text, bytes, text_eq, text_eq_refl, text_eq_iff, Text-cases, text_neq-sym,
  is_empty, has_prefix, contains, itoa, digits, Dict, lookup, insert, remove, lookup-insert,
  lookup-remove,
}
use devpods.Api.Kube.{
  EnvVar, VolumeMount, Volume, empty_dir, secret, claim, host_path, Container, PodSpec,
}
use devpods.Api.DevPods.{DevPod, PersistenceSpec, PodWorkloadSpec}
use devpods.Api.Config.{GatewayConfigSpec, HomeDirSpec}
use devpods.Render.Naming.{
  devpod_labels, pod_name, host_key_secret_name, home_pvc_name, backend_port,
}

pub data RenderError : Type 0 where
  workload_kind_missing no_containers : RenderError
  mount_target_not_found supervisor_target_not_found : Text → RenderError

pub record RenderedPod : Type 0 where
  pub name : Text
  pub namespace : Text
  pub labels : Dict Text
  pub annotations : Dict Text
  pub spec : PodSpec

abbrev pub volume_supervisor_bin : Text
volume_supervisor_bin = bytes "devpod-bin"

abbrev pub volume_supervisor_host : Text
volume_supervisor_host = bytes "devpod-host"

abbrev pub volume_home : Text
volume_home = bytes "devpod-home"

abbrev pub volume_host_home : Text
volume_host_home = bytes "devpod-host-home"

abbrev pub supervisor_path : Text
supervisor_path = bytes "/opt/devpod/devpod-supervisor"

-- 100Mi
supervisor_bin_volume : Volume
supervisor_bin_volume = record {
  name = volume_supervisor_bin;
  source = empty_dir (100 * 1024 * 1024);
}

-- Mode 0400
host_key_secret_volume : DevPod → Volume
host_key_secret_volume dp = record {
  name = volume_supervisor_host;
  source = secret (host_key_secret_name dp) 256;
}

pub home_volume : DevPod → Volume
home_volume dp = record { name = volume_home; source = claim (home_pvc_name dp) }

-- The loops over the containers change the first one of the given name; `none` if there is none.
unfoldable pub update_first :
    Text → (Container → Container) → List Container → Option (List Container)
update_first target f [] = none
update_first target f (c ∷ cs) =
    let rest = update_first target f cs in
    if text_eq c.name target
    then some (f c ∷ cs)
    else (elim rest [ none ↦ none | some cs' ↦ some (c ∷ cs') ])

abbrev pub first_name : List Container → Text
first_name [] = []
first_name (c ∷ _) = c.name

pub add_mount : VolumeMount → Container → Container
add_mount m c = record c { volume_mounts = c.volume_mounts ++ m ∷ [] }

pub inject_home_mount : PersistenceSpec → PodSpec → Outcome RenderError PodSpec
unfolding add_mount
inject_home_mount p pod = do
  let target = if is_empty p.target_container then first_name pod.containers else p.target_container
  cs ←
      or_refuse
        (update_first target
          (add_mount (record { name = volume_home; mount_path = p.mount_path; read_only = false }))
          pod.containers)
        (mount_target_not_found target)
  passed (record pod { containers = cs })

pub change_first : (Container → Container) → List Container → List Container
change_first f [] = []
change_first f (c ∷ cs) = f c ∷ cs

pub inject_host_path_home : HomeDirSpec → Text → PodSpec → PodSpec
unfolding add_mount change_first
inject_host_path_home home owner spec =
    let path = home.host_path_prefix ++ b'/' ∷ owner in
    let mount =
      if is_empty home.mount_prefix
      then bytes "/home/" ++ owner
      else home.mount_prefix ++ b'/' ∷ owner in
    record spec {
      volumes =
          spec.volumes
          ++ record { name = volume_host_home; source = host_path path (bytes "DirectoryOrCreate") }
            ∷ [];
      containers =
          change_first
            (λ c.
              let c' =
                add_mount
                  (record { name = volume_host_home; mount_path = mount; read_only = false }) c in
              record c' { env = c'.env ++ record { name = bytes "HOME"; value = mount } ∷ [] })
            spec.containers;
    }

-- The variables that tune the supervisor.
unfoldable pub supervisor_env : DevPod → ℕ → List EnvVar
supervisor_env dp port =
    record { name = bytes "SUPERVISOR_SSHD_PORT"; value = itoa port }
    ∷ ((if dp.spec.exit_on_user_command_exit
          then record { name = bytes "SUPERVISOR_EXIT_ON_USER_CMD"; value = bytes "true" } ∷ []
          else [])
        ++ (if is_empty dp.spec.shell
            then []
            else record { name = bytes "DEVPOD_SHELL"; value = dp.spec.shell } ∷ []))

-- What the supervisor does to its container: the user's command and arguments become its arguments.
unfoldable pub wrap : DevPod → ℕ → Container → Container
unfolding supervisor_env
wrap dp port c = record c {
  command = supervisor_path ∷ [];
  args = c.command ++ c.args;
  volume_mounts =
      c.volume_mounts
      ++ record { name = volume_supervisor_bin; mount_path = bytes "/opt/devpod"; read_only = true }
        ∷ record {
          name = volume_supervisor_host;
          mount_path = bytes "/etc/devpod";
          read_only = true;
        }
        ∷ [];
  env = c.env ++ supervisor_env dp port;
}

unfoldable pub supervisor_target : Option PersistenceSpec → PodSpec → Text
supervisor_target none spec = first_name spec.containers
supervisor_target (some p) spec =
    if is_empty p.target_container then first_name spec.containers else p.target_container

unfoldable pub wrap_target_with_supervisor : DevPod → ℕ → PodSpec → Outcome RenderError PodSpec
wrap_target_with_supervisor dp port spec = do
  let target = supervisor_target dp.spec.persistence spec
  cs ←
      or_refuse (update_first target (wrap dp port) spec.containers)
        (supervisor_target_not_found target)
  passed (record spec { containers = cs })

unfoldable pub bootstrap_init_container : Text → Container
bootstrap_init_container image = record {
  name = bytes "devpod-bootstrap";
  image = image;
  command = supervisor_path ∷ bytes "bootstrap" ∷ [];
  args = [];
  env =
      record { name = bytes "SUPERVISOR_BOOTSTRAP_SRC"; value = bytes "/opt/devpod" }
      ∷ record { name = bytes "SUPERVISOR_BOOTSTRAP_DST"; value = bytes "/devpod-bin" }
      ∷ [];
  volume_mounts =
      record { name = volume_supervisor_bin; mount_path = bytes "/devpod-bin"; read_only = false }
      ∷ [];
  limits = [];
  requests = [];
}

-- mergeStrings: an entry of the source is inserted when its key is free.
unfoldable pub merge_strings : Dict Text → Dict Text → Dict Text
merge_strings dst [] = dst
merge_strings dst ((k, v) ∷ src) =
    merge_strings (if is_none (lookup k dst) then insert k v dst else dst) src

-- The volume of the home, by what the DevPod and the configuration ask for.
unfoldable pub inject_home : DevPod → GatewayConfigSpec → PodSpec → Outcome RenderError PodSpec
unfolding inject_home_mount inject_host_path_home home_volume
inject_home dp cfg spec = elim dp.spec.persistence [
  | some p ↦ inject_home_mount p (record spec { volumes = spec.volumes ++ home_volume dp ∷ [] })
  | none ↦ elim cfg.home_dir [
    | some home ↦ passed (inject_host_path_home home dp.spec.owner spec)
    | none ↦ passed spec
  ]
]

unfoldable pub with_supervisor_volumes : DevPod → PodSpec → PodSpec
unfolding supervisor_bin_volume host_key_secret_volume
with_supervisor_volumes dp spec = record spec {
  volumes = spec.volumes ++ supervisor_bin_volume ∷ host_key_secret_volume dp ∷ [];
}

-- The body of Pod behind the two checks of the workload.
unfoldable pub render_spec :
    (Text → ℕ) → DevPod → GatewayConfigSpec → PodSpec → Outcome RenderError PodSpec
render_spec sum32 dp cfg user = do
  homed ← inject_home dp cfg (with_supervisor_volumes dp user)
  wrapped ← wrap_target_with_supervisor dp (backend_port sum32 dp cfg) homed
  passed (record wrapped {
    init_containers = bootstrap_init_container cfg.supervisor_image ∷ wrapped.init_containers;
  })

unfoldable pub render_workload :
    (Text → ℕ) → DevPod → GatewayConfigSpec → PodWorkloadSpec → Outcome RenderError RenderedPod
render_workload sum32 dp cfg w = do
  spec ← render_spec sum32 dp cfg w.spec
  passed (record {
    name = pod_name dp;
    namespace = cfg.dev_pod_namespace;
    labels = merge_strings (devpod_labels dp) w.metadata.labels;
    annotations = merge_strings [] w.metadata.annotations;
    spec = spec;
  })

-- The two checks of the workload.
abbrev pub render_containers :
    (Text → ℕ)
    → DevPod
    → GatewayConfigSpec
    → PodWorkloadSpec
    → List Container
    → Outcome RenderError RenderedPod
render_containers sum32 dp cfg w [] = refused no_containers
render_containers sum32 dp cfg w (c ∷ cs) = render_workload sum32 dp cfg w

abbrev pub render_kind :
    (Text → ℕ)
    → DevPod
    → GatewayConfigSpec
    → Option PodWorkloadSpec
    → Outcome RenderError RenderedPod
render_kind sum32 dp cfg none = refused workload_kind_missing
render_kind sum32 dp cfg (some w) = render_containers sum32 dp cfg w w.spec.containers

-- render.Pod.
unfoldable pub render_pod :
    (Text → ℕ) → DevPod → GatewayConfigSpec → Outcome RenderError RenderedPod
render_pod sum32 dp cfg = render_kind sum32 dp cfg dp.spec.pod
