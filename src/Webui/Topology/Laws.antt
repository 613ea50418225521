-- ===== src/Webui/Topology/Laws.antt =====
-- Who is shown the layout of a node, and which cores are shown as the DevPod's own.
use devpods.Prelude.{
  [], Option, none, ◌≡◌, true, false, Option, none, some, List, [], map, Text, is_empty,
}
use devpods.Api.Kube.{found, Pod}
use devpods.Api.DevPods.{WorkloadRef}
use devpods.Webui.Requests.{Backend}
use devpods.Webui.Topology.{
  KoreAlloc, KoreItem, KoreStatusRaw, NodeTopology, KoreReader, Layout, layout,
}
use devpods.Webui.Topology.Origins.{HoldsIn}

-- The Pods of the namespace, none when they cannot be read.
abbrev pub listed : Option (List Pod) → List Pod
listed none = []
listed (some pods) = pods

-- What a layout shows of a node, by the status of Kore: the pod of every allocation on it, and cores that
-- the DevPod has there.
abbrev pub IsOpen : Backend → KoreReader → Text → Text → NodeTopology → KoreItem → Type 0
IsOpen b k name cores node item =
    (st : KoreStatusRaw) × (item.status ≡ some st)
    × (node.node ≡ item.name)
    × (map (λ (a : KoreAlloc). a.pod) node.allocations
        ≡ map (λ (a : KoreAlloc). a.pod) st.allocations)
    × HoldsIn b.ns (listed k.list_pods) name cores st

-- A shown layout is that of one node.
abbrev pub Shows : (NodeTopology → Text → Type 0) → Layout → Type 0
Shows P shown =
    (node : NodeTopology) (cores : Text)
    → shown ≡ layout node cores
    → (is_empty cores ≡ false) × P node cores

-- The way from a workload to the layout: Kore is on, and the Pod runs on the node of the item.
pub record Found (b : Backend) (k : KoreReader) (name : Text) (ref : Option WorkloadRef)
    (node : NodeTopology) (cores : Text) : Type 0 where
  pub is_enabled : b.kore_enabled ≡ true
  pub workload : WorkloadRef
  pub is_workload : ref ≡ some workload
  pub pod : Pod
  pub is_pod : k.get_pod workload.name ≡ found pod
  pub item : KoreItem
  pub is_item : k.get_topology pod.spec.node_name ≡ found item
  pub is_nonempty : is_empty cores ≡ false
  pub is_open : IsOpen b k name cores node item
