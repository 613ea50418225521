-- ===== src/Render/Objects.antt =====
-- internal/render/{service,pvc,secret}.go: the objects beside the Pod. The generation and the coding
-- of keys are parameters.
use devpods.Prelude.{
  ℕ, Option, none, some, [], ◌∷◌, if◌then◌else◌, Outcome, passed, ◌>>=◌, Text, bytes, is_empty,
  Dict,
}
use devpods.Api.Kube.{ObjectMeta}
use devpods.Api.Objects.{Service, Claim, Secret}
use devpods.Api.DevPods.{DevPod, PersistenceSpec}
use devpods.Api.Config.{GatewayConfigSpec}
use devpods.Render.Naming.{
  label_owner, label_devpod, devpod_labels, service_name, host_key_secret_name, home_pvc_name,
  backend_port,
}

abbrev pub metadata_of : Text → Text → Dict Text → ObjectMeta
metadata_of name namespace labels = record {
  name = name;
  namespace = namespace;
  uid = [];
  labels = labels;
  annotations = [];
  finalizers = [];
  deletion_timestamp = none;
  owner_references = [];
}

unfoldable pub object_meta : Text → Text → DevPod → ObjectMeta
object_meta name namespace dp = metadata_of name namespace (devpod_labels dp)

unfoldable pub render_service : (Text → ℕ) → DevPod → GatewayConfigSpec → Service
unfolding object_meta
render_service sum32 dp cfg =
    let port = backend_port sum32 dp cfg in
    record {
      metadata = object_meta (service_name dp) cfg.dev_pod_namespace dp;
      cluster_ip = bytes "None";
      selector = (label_owner, dp.spec.owner) ∷ (label_devpod, dp.metadata.name) ∷ [];
      ports =
          record { name = bytes "ssh"; port = port; target_port = port; protocol = bytes "TCP" }
          ∷ [];
    }

claim_of : DevPod → GatewayConfigSpec → PersistenceSpec → Claim
unfolding object_meta
claim_of dp cfg p = record {
  metadata = object_meta (home_pvc_name dp) cfg.dev_pod_namespace dp;
  access_modes = elim p.access_modes [
    | [] ↦ bytes "ReadWriteOnce" ∷ []
    | (mode ∷ modes) ↦ mode ∷ modes
  ];
  storage = p.size;
  storage_class_name = if is_empty p.storage_class_name then none else some p.storage_class_name;
}

-- `none` is the nil that stands for no claim to apply.
unfoldable pub render_home_pvc : DevPod → GatewayConfigSpec → Option Claim
unfolding claim_of
render_home_pvc dp cfg = elim dp.spec.persistence [
  | none ↦ none
  | some p ↦ some (claim_of dp cfg p)
]

-- What ed25519.GenerateKey, ssh.MarshalPrivateKey with pem.EncodeToMemory, and ssh.NewPublicKey with
-- ssh.MarshalAuthorizedKey give; a random source is the one that is in use.
pub record KeyTool : Type 0 where
  pub generate : Unit {0} → Outcome Text (Text × Text)
  pub marshal_private : Text → Outcome Text Text
  pub marshal_public : Text → Outcome Text Text

unfoldable pub render_host_key_secret :
    KeyTool → DevPod → GatewayConfigSpec → Text → Outcome Text Secret
unfolding object_meta
render_host_key_secret tool dp cfg authorized_key = do
  key ← tool.generate tt
  private ← tool.marshal_private key.1
  public ← tool.marshal_public key.0
  passed (record {
    metadata = object_meta (host_key_secret_name dp) cfg.dev_pod_namespace dp;
    kind = bytes "Opaque";
    contents =
        (bytes "ssh_host_ed25519_key", private)
        ∷ (bytes "ssh_host_ed25519_key.pub", public)
        ∷ (bytes "authorized_keys", authorized_key)
        ∷ [];
  })
