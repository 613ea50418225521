-- ===== src/Render/Network.antt =====
-- internal/render/networkpolicy.go.
pub mod Isolation
mod Tests
use devpods.Prelude.{
  ℕ, zero, suc, ◌+◌, ◌-◌, ◌*◌, ◌/◌, ◌%◌, ◌^◌, ◌≤◌, ◌<◌, ◌≡◌, refl, sym, ap, ◌∙◌, subst, ◌≢◌, ◌↔◌,
  ◌⊎◌, inl, inr, Bool, true, false, not, ◌&&◌, ◌||◌, Option, none, some, List, [], ◌∷◌, ◌++◌, map,
  append_assoc, append-nil, arith, ltb, leb, ◌==◌, if◌then◌else◌, ltb→lt, lt→ltb, leb→le, le→leb,
  ==_iff, tests, Bool-cases, Option-cases, and-true, is_none, some-injective, Outcome, refused,
  passed, ◌>>=◌, or_refuse, refuse_if, passed-injective, refused-ne-passed, Outcome-cases,
  >>=-passed, or_refuse-passed, refuse_if-passed, guarded, length, length-append, List-cases, all,
  All, All-append, Text, bytes, text_eq, text_eq_refl, text_eq_iff, Text-cases, text_neq-sym,
  is_empty, has_prefix, contains, itoa, digits, Dict, lookup, insert, remove, lookup-insert,
  lookup-remove,
}
use devpods.Api.Objects.{PolicyPort, PolicyPeer, PolicyRule, NetworkPolicy}
use devpods.Render.Naming.{label_owner, label_managed, owner_net_pol_name}
use devpods.Render.Objects.{metadata_of}

unfoldable pub port_of : Text → ℕ → PolicyPort
port_of protocol num = record { protocol = protocol; port = num }

unfoldable pub default_deny_network_policy : Text → NetworkPolicy
default_deny_network_policy ns = record {
  metadata =
      metadata_of (bytes "devpod-default-deny") ns
        ((label_managed, bytes "devpod-controller") ∷ []);
  pod_selector = [];
  policy_types = bytes "Ingress" ∷ bytes "Egress" ∷ [];
  ingress = [];
  egress = [];
}

abbrev pub pods_with : Dict Text → PolicyPeer
pods_with labels = record { pod_selector = some labels; namespace_selector = none; ip_block = none }

abbrev pub namespaces_with : Dict Text → PolicyPeer
namespaces_with labels = record {
  pod_selector = none;
  namespace_selector = some labels;
  ip_block = none;
}

abbrev pub public_internet : PolicyPeer
public_internet = record {
  pod_selector = none;
  namespace_selector = none;
  ip_block = some (record {
    cidr = bytes "0.0.0.0/0";
    except = bytes "10.0.0.0/8" ∷ bytes "172.16.0.0/12" ∷ bytes "192.168.0.0/16" ∷ [];
  });
}

abbrev pub name_of_namespace : Text
name_of_namespace = bytes "kubernetes.io/metadata.name"

unfoldable pub owner_ingress : Text → Text → ℕ → List PolicyRule
unfolding port_of
owner_ingress owner gateway_ns backend_port =
    record { peers = pods_with ((label_owner, owner) ∷ []) ∷ []; ports = [] }
    ∷ record {
      peers = namespaces_with ((name_of_namespace, gateway_ns) ∷ []) ∷ [];
      ports = port_of (bytes "TCP") backend_port ∷ [];
    }
    ∷ []

unfoldable pub owner_allow_network_policy : Text → Text → Text → ℕ → NetworkPolicy
unfolding port_of owner_ingress
owner_allow_network_policy ns owner gateway_ns backend_port = record {
  metadata =
      metadata_of (owner_net_pol_name owner) ns
        ((label_owner, owner) ∷ (label_managed, bytes "devpod-controller") ∷ []);
  pod_selector = (label_owner, owner) ∷ [];
  policy_types = bytes "Ingress" ∷ bytes "Egress" ∷ [];
  ingress = owner_ingress owner gateway_ns backend_port;
  egress =
      record {
        peers = namespaces_with [] ∷ [];
        ports = port_of (bytes "UDP") 53 ∷ port_of (bytes "TCP") 53 ∷ [];
      }
      ∷ record { peers = public_internet ∷ []; ports = [] }
      ∷ [];
}
