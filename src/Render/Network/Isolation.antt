-- ===== src/Render/Network/Isolation.antt =====
-- Which connections the policy of an owner admits. `admits` evaluates the ingress rules of a policy as
-- Kubernetes documents them, for a connection from a Pod.
use devpods.Prelude.{
  ℕ, ◌≡◌, refl, Bool, true, false, ◌&&◌, ◌||◌, none, some, List, [], ◌∷◌, arith, ◌==◌, passed, Text,
  bytes, text_eq, text_eq_refl, Dict, lookup,
}
use devpods.Api.Objects.{PolicyPort, PolicyPeer, PolicyRule, NetworkPolicy}
use devpods.Api.DevPods.{DevPod}
use devpods.Api.Config.{GatewayConfigSpec}
use devpods.Render.Naming.{label_owner, backend_port}
use devpods.Render.Pod.{RenderedPod, render_pod}
use devpods.Render.Pod.Labels.{render_pod-labels}
use devpods.Render.Pod.Inversion.{render_pod-passed}
use devpods.Render.Network.{name_of_namespace, owner_allow_network_policy}

-- The Pod that a connection comes from.
pub record Source : Type 0 where
  pub namespace : Text
  pub namespace_labels : Dict Text
  pub labels : Dict Text

has_entry : Dict Text → Text → Text → Bool
has_entry labels k v = elim (lookup k labels) [ none ↦ false | some w ↦ text_eq w v ]

-- A selector by labels selects what carries all its entries.
pub selects : Dict Text → Dict Text → Bool
unfolding has_entry
selects [] labels = true
selects ((k, v) ∷ s) labels = has_entry labels k v && selects s labels

-- A peer without a selector for namespaces means the namespace of the policy.
is_peer : Text → PolicyPeer → Source → Bool
is_peer ns peer src = elim peer.namespace_selector [
  | none ↦ elim peer.pod_selector [
    | none ↦ false
    | some s ↦ text_eq src.namespace ns && selects s src.labels
  ]
  | some n ↦ elim peer.pod_selector [
    | none ↦ selects n src.namespace_labels
    | some s ↦ selects n src.namespace_labels && selects s src.labels
  ]
]

any_peer : Text → List PolicyPeer → Source → Bool
unfolding is_peer
any_peer ns [] src = false
any_peer ns (p ∷ ps) src = is_peer ns p src || any_peer ns ps src

any_port : List PolicyPort → Text → ℕ → Bool
any_port [] protocol port = false
any_port (p ∷ ps) protocol port =
    (text_eq p.protocol protocol && (p.port == port)) || any_port ps protocol port

-- A rule without ports is for all of them.
is_port : List PolicyPort → Text → ℕ → Bool
unfolding any_port
is_port [] protocol port = true
is_port (p ∷ ps) protocol port = any_port (p ∷ ps) protocol port

any_rule : Text → List PolicyRule → Source → Text → ℕ → Bool
unfolding any_peer is_port
any_rule ns [] src protocol port = false
any_rule ns (r ∷ rs) src protocol port =
    (any_peer ns r.peers src && is_port r.ports protocol port) || any_rule ns rs src protocol port

pub admits : NetworkPolicy → Source → Text → ℕ → Bool
unfolding any_rule
admits policy src protocol port =
    any_rule policy.metadata.namespace policy.ingress src protocol port

-- The two rules of an owner's policy.
admits-owner_allow :
    (ns owner gateway_ns : Text) (backend : ℕ) (src : Source) (protocol : Text) (port : ℕ)
    → admits (owner_allow_network_policy ns owner gateway_ns backend) src protocol port ≡ (
        (text_eq src.namespace ns && has_entry src.labels label_owner owner)
        || (has_entry src.namespace_labels name_of_namespace gateway_ns
            && (text_eq (bytes "TCP") protocol && (backend == port))))
unfolding owner_allow_network_policy admits selects
admits-owner_allow ns owner gateway_ns backend src protocol port = ground arith

has_entry-lookup :
    (labels : Dict Text) (k v w : Text)
    → lookup k labels ≡ some w
    → has_entry labels k v ≡ text_eq w v
unfolding has_entry
has_entry-lookup labels k v w h = rw (has_entry, h) refl

-- The Pod of a DevPod, as the source of a connection.
abbrev pub pod_source : RenderedPod → Dict Text → Source
pod_source r namespace_labels = record {
  namespace = r.namespace;
  namespace_labels = namespace_labels;
  labels = r.labels;
}

abbrev pub policy_of : (Text → ℕ) → DevPod → GatewayConfigSpec → Text → NetworkPolicy
policy_of sum32 dp cfg gateway_ns =
    owner_allow_network_policy cfg.dev_pod_namespace dp.spec.owner gateway_ns
      (backend_port sum32 dp cfg)

module _ (sum32 : Text → ℕ) (cfg : GatewayConfigSpec) where
  -- The entry of a rendered Pod by which the policies select it.
  owner_entry :
      (dp : DevPod) (r : RenderedPod) (owner : Text)
      → render_pod sum32 dp cfg ≡ passed r
      → has_entry r.labels label_owner owner ≡ text_eq dp.spec.owner owner
  owner_entry dp r owner h =
      has_entry-lookup r.labels label_owner owner _ (render_pod-labels sum32 dp cfg r h).0

  selects-owner :
      (a dp : DevPod) (r : RenderedPod) (gateway_ns : Text)
      → render_pod sum32 dp cfg ≡ passed r
      → selects (policy_of sum32 a cfg gateway_ns).pod_selector r.labels
        ≡ text_eq dp.spec.owner a.spec.owner
  unfolding owner_allow_network_policy selects
  selects-owner a dp r gateway_ns h = rw (owner_entry dp r a.spec.owner h) (ground arith)

  -- In the policy of the owner of `a`, when the DevPods are not in the gateway's namespace: the policy
  -- selects the Pod of a DevPod `b` exactly when `a` and `b` have one owner; it admits a connection
  -- from the Pod of `b`, on any port, exactly when they have one owner, whatever labels the users
  -- asked for; and it admits one from the gateway's namespace exactly on TCP and the port of a's
  -- backend. That a namespace carries its name as a label is a premise for both namespaces.
  pub owner_policy-Isolates :
      (a b : DevPod) (rb : RenderedPod) (gateway_ns : Text) (labels : Dict Text) (src : Source)
      (protocol : Text) (port : ℕ)
      → render_pod sum32 b cfg ≡ passed rb
      → lookup name_of_namespace labels ≡ some cfg.dev_pod_namespace
      → lookup name_of_namespace src.namespace_labels ≡ some gateway_ns
      → text_eq src.namespace cfg.dev_pod_namespace ≡ false
      → text_eq cfg.dev_pod_namespace gateway_ns ≡ false
      → (selects (policy_of sum32 a cfg gateway_ns).pod_selector rb.labels
          ≡ text_eq b.spec.owner a.spec.owner)
        × (admits (policy_of sum32 a cfg gateway_ns) (pod_source rb labels) protocol port
            ≡ text_eq b.spec.owner a.spec.owner)
        × (admits (policy_of sum32 a cfg gateway_ns) src protocol port
            ≡ (text_eq (bytes "TCP") protocol && (backend_port sum32 a cfg == port)))
  owner_policy-Isolates a b rb gateway_ns labels src protocol port h named gw apart differ =
      let ns : rb.namespace ≡ cfg.dev_pod_namespace =
        (let (w, p, (spec, s, e)) = render_pod-passed sum32 b cfg rb h in rw e refl) in
      (
        selects-owner a b rb gateway_ns h,
        rw
            (
              admits-owner_allow,
              ns,
              text_eq_refl cfg.dev_pod_namespace,
              owner_entry b rb a.spec.owner h,
              has_entry-lookup labels name_of_namespace gateway_ns _ named,
              differ,
            )
            (ground arith),
        rw
            (
              admits-owner_allow,
              apart,
              has_entry-lookup src.namespace_labels name_of_namespace gateway_ns _ gw,
              text_eq_refl gateway_ns,
            )
            (ground arith),
      )
