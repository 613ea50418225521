-- ===== src/Webui/Requests.antt =====
-- internal/webui/api_devpods.go, buildDevPod: the DevPod that a request to create one describes. The
-- parts of the request and of the server that are not in the repository, YAML and quantities and the
-- objects that a read returns, are the fields of Backend.
use devpods.Prelude.{
  ℤ, ℕ, Bool, true, false, not, ◌&&◌, ◌||◌, Option, none, some, List, [], ◌∷◌, ◌++◌, ltb,
  if◌then◌else◌, Outcome, passed, ◌>>=◌, or_refuse, refuse_if, length, Text, bytes, text_eq,
  is_empty, has_prefix, Dict, insert,
}
use devpods.Api.Kube.{GetResult}
use devpods.Api.DevPods.{DevPod, PersistenceSpec, PodWorkloadSpec, unset}
use devpods.Api.Users.{User, UserQuota}
use devpods.Api.Templates.{DevPodTemplateSpec}
use devpods.Webui.Names.{is_label, max_dev_pod_name_len}
use devpods.Webui.Quota.{cpu, memory}

-- The identity behind a request.
pub record Session : Type 0 where
  pub user : Text
  pub admin : Bool
  pub expiry : ℕ

-- CreateRequest; an empty text is an absent field.
pub record CreateRequest : Type 0 where
  pub name : Text
  pub template_ref : Text
  pub yaml : Text
  pub image : Text
  pub cpu_limit : Text
  pub memory_limit : Text
  pub shell : Text
  pub persistence : Option PersistenceSpec

pub record Backend : Type 0 where
  pub ns : Text
  pub kore_enabled : Bool
  pub default_quota : UserQuota
  pub unmarshal : Text → Option DevPod
  pub parse_quantity : Text → Option ℤ
  pub atoi : Text → Option ℕ
  pub get_user : Text → GetResult User
  pub get_template : Text → GetResult DevPodTemplateSpec
  pub get_devpod : Text → GetResult DevPod
  pub list_devpods : Option (List DevPod)

-- The status and the code of an error reply.
pub data Refusal : Type 0 where
  bad_request not_owner kore_forbidden quota_exceeded internal no_devpod : Refusal

-- The limits that the fields of the request ask for, an absent one left out.
unfoldable pub add_limit : Backend → Text → Text → Dict ℤ → Outcome Refusal (Dict ℤ)
add_limit b resource value limits =
    if is_empty value
    then passed limits
    else do n ← or_refuse (b.parse_quantity value) bad_request; passed (insert resource n limits)

unfoldable pub workload_of : Text → Dict ℤ → PodWorkloadSpec
workload_of image limits = record {
  metadata = record { labels = []; annotations = [] };
  spec = record {
    containers =
        record {
          name = bytes "dev";
          image = image;
          command = [];
          args = [];
          env = [];
          volume_mounts = [];
          limits = limits;
          requests = [];
        }
        ∷ [];
    init_containers = [];
    volumes = [];
    host_network = false;
    node_name = [];
  };
}

unfoldable pub requested_workload :
    Backend → CreateRequest → Outcome Refusal (Option PodWorkloadSpec)
unfolding add_limit workload_of
requested_workload b req = if is_empty req.image then passed none else do
  limits ← add_limit b cpu req.cpu_limit []
  all_limits ← add_limit b memory req.memory_limit limits
  passed (some (workload_of req.image all_limits))

-- The DevPod that the fields of the request describe.
unfoldable pub requested_devpod :
    Backend → Session → CreateRequest → Text → Option PodWorkloadSpec → DevPod
requested_devpod b sess req name pod = record {
  metadata = record {
    name = name;
    namespace = b.ns;
    uid = [];
    labels = [];
    annotations = [];
    finalizers = [];
    deletion_timestamp = none;
    owner_references = [];
  };
  spec = record {
    owner = sess.user;
    collaborators = [];
    running = true;
    idle_timeout_seconds = 0;
    persistence = req.persistence;
    exit_on_user_command_exit = false;
    shell = req.shell;
    pod = pod;
    vm = none;
  };
  status = record {
    phase = unset;
    endpoint = [];
    workload_ref = none;
    persistent_volume_claim_ref = none;
    last_activity_time = none;
    hibernated_at = none;
    retry_count = 0;
    last_failure_at = none;
    message = [];
  };
}

abbrev pub name_prefix : Text → Text
name_prefix user = user ++ b'-' ∷ []

-- The manifest's own namespace gives way; an absent owner is the session's user.
unfoldable pub with_defaults : Backend → Session → DevPod → DevPod
with_defaults b sess dp = record dp {
  metadata = record dp.metadata { namespace = b.ns };
  spec = record dp.spec { owner = if is_empty dp.spec.owner then sess.user else dp.spec.owner };
}

unfoldable pub from_yaml : Backend → Session → Text → Outcome Refusal DevPod
unfolding with_defaults
from_yaml b sess yaml = do
  parsed ← or_refuse (b.unmarshal yaml) bad_request
  let dp = with_defaults b sess parsed
  _ ← refuse_if (not sess.admin && not (text_eq dp.spec.owner sess.user)) not_owner
  _ ←
      refuse_if (not sess.admin && not (has_prefix (name_prefix sess.user) dp.metadata.name))
        bad_request
  passed dp

unfoldable pub from_fields : Backend → Session → CreateRequest → Outcome Refusal DevPod
unfolding requested_workload requested_devpod
from_fields b sess req = do
  let name = name_prefix sess.user ++ req.name
  _ ← refuse_if (is_empty req.name) bad_request
  _ ← refuse_if (ltb max_dev_pod_name_len (length name) || not (is_label name)) bad_request
  pod ← requested_workload b req
  passed (requested_devpod b sess req name pod)

unfoldable pub build_devpod : Backend → Session → CreateRequest → Outcome Refusal DevPod
unfolding from_yaml from_fields
build_devpod b sess req =
    if is_empty req.yaml then from_fields b sess req else from_yaml b sess req.yaml
