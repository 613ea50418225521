-- ===== src/Gateway/Samples.antt =====
-- Objects on which the theorems about the gateway are run.
use devpods.Prelude.{true, false, none, some, [], ◌∷◌, if◌then◌else◌, Text, bytes, text_eq}
use devpods.Gateway.Identity.{SshLib, IdentitySource, resolved, unknown_identity, source_error}
use devpods.Api.Kube.{ObjectMeta, GetResult, found, not_found}
use devpods.Api.DevPods.{DevPod, running}

-- Keys that are their own wire form, fingerprint and line.
abbrev pub plain_ssh : SshLib
plain_ssh = record {
  Key = Text;
  marshal = λ k. k;
  fingerprint = λ k. k;
  parse_authorized_key = λ line. some line;
}

abbrev pub alice_meta : ObjectMeta
alice_meta = record {
  name = bytes "al-d2";
  namespace = bytes "devpods";
  uid = bytes "u1";
  labels = [];
  annotations = [];
  finalizers = [];
  deletion_timestamp = none;
  owner_references = [];
}

-- A running DevPod "d2" of owner "al", with "bo" as a collaborator.
abbrev pub alice_devpod : DevPod
alice_devpod = record {
  metadata = alice_meta;
  spec = record {
    owner = bytes "al";
    collaborators = bytes "bo" ∷ [];
    running = true;
    idle_timeout_seconds = 0;
    persistence = none;
    exit_on_user_command_exit = false;
    shell = [];
    pod = none;
    vm = none;
  };
  status = record {
    phase = running;
    endpoint = bytes "10.0.0.9:2222";
    workload_ref = none;
    persistent_volume_claim_ref = none;
    last_activity_time = none;
    hibernated_at = none;
    retry_count = 0;
    last_failure_at = none;
    message = [];
  };
}

-- The cluster holds that DevPod alone, under its owner-scoped name.
abbrev pub get_alice : Text → GetResult DevPod
get_alice name = if text_eq name (bytes "al-d2") then found alice_devpod else not_found

-- A source that fails, one that knows nobody, and one that has the key "k" for everybody.
abbrev pub down : IdentitySource Text
down = record { name = bytes "crd"; resolve = λ user. source_error (bytes "timeout") }

abbrev pub empty : IdentitySource Text
empty = record { name = bytes "crd"; resolve = λ user. unknown_identity false }

abbrev pub keyed : IdentitySource Text
keyed = record { name = bytes "ldap"; resolve = λ user. resolved (bytes "k" ∷ []) true }
