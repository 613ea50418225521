-- ===== src/Webui/Topology.antt =====
-- internal/webui/kore_topology.go: the layout of a node as Kore reports it, and who may see it. JSON is
-- decoded before: a status that has no shape of ours is none. Nil and empty lists are not told apart.
use devpods.Prelude.{
  ℕ, Bool, true, false, not, ◌&&◌, ◌||◌, Option, none, some, List, [], ◌∷◌, map, ltb, ◌==◌,
  if◌then◌else◌, Outcome, passed, ◌>>=◌, or_refuse, refuse_if, Text, bytes, text_eq, is_empty, Dict,
  lookup, insert,
}
use devpods.Api.Kube.{GetResult, found, not_found, get_failed, Pod}
use devpods.Api.DevPods.{WorkloadRef}
use devpods.Webui.Requests.{Session, Backend, Refusal}
use devpods.Webui.DevPods.{get_owned}
pub mod Cores
pub mod Origins
pub mod Laws
mod Tests

pub record KoreDevice : Type 0 where
  pub name : Text
  pub device_type : Text

pub record KoreZone : Type 0 where
  pub id : ℕ
  pub cpus : Text
  pub free_cpus : Text
  pub smt_siblings : List (List ℕ)
  pub memory : Text
  pub devices : List KoreDevice

-- `pod` is "<namespace>/<name>"; `devpod` is set for a pod of our namespace.
pub record KoreAlloc : Type 0 where
  pub pod : Text
  pub container : Text
  pub cpuset : Text
  pub devpod : Text

pub record KorePool : Type 0 where
  pub name : Text
  pub cpuset : Text
  pub numa : List ℕ
  pub members : List Text

pub record NodeTopology : Type 0 where
  pub node : Text
  pub reserved_cpus : Text
  pub zones : List KoreZone
  pub allocations : List KoreAlloc
  pub pools : List KorePool

-- koreStatusRaw; its zones have the fields of KoreZone.
pub record KoreStatusRaw : Type 0 where
  pub reserved_system_cpus : Text
  pub zones : List KoreZone
  pub allocations : List KoreAlloc
  pub pools : List KorePool

-- An unstructured KoreNodeTopology: its name, and its status where that can be decoded.
pub record KoreItem : Type 0 where
  pub name : Text
  pub status : Option KoreStatusRaw

-- strings.Cut at the first slash.
unfoldable pub cut_slash : Text → Option (Text × Text)
cut_slash [] = none
cut_slash (c ∷ s) =
    let rest = cut_slash s in
    if c == b'/'
    then some ([], s)
    else (elim rest [ none ↦ none | some (before, after) ↦ some (c ∷ before, after) ])

unfoldable pub mark_devpod : Text → KoreAlloc → KoreAlloc
unfolding cut_slash
mark_devpod devpod_ns a = elim (cut_slash a.pod) [
  | none ↦ a
  | some (ns, name) ↦ if text_eq ns devpod_ns then record a { devpod = name } else a
]

-- The order of Go strings.
unfoldable pub text_less : Text → Text → Bool
text_less s [] = false
text_less [] (c ∷ t) = true
text_less (b ∷ s) (c ∷ t) = ltb b c || (b == c && text_less s t)

-- sort.Slice by the node; the names of nodes differ.
unfoldable pub insert_node : NodeTopology → List NodeTopology → List NodeTopology
insert_node n [] = n ∷ []
insert_node n (m ∷ ms) =
    let rest = insert_node n ms in if text_less m.node n.node then m ∷ rest else n ∷ m ∷ ms

unfoldable pub sort_nodes : List NodeTopology → List NodeTopology
unfolding insert_node
sort_nodes [] = []
sort_nodes (n ∷ ns) = insert_node n (sort_nodes ns)

unfoldable pub topology_of : Text → Text → KoreStatusRaw → NodeTopology
topology_of devpod_ns name st = record {
  node = name;
  reserved_cpus = st.reserved_system_cpus;
  zones = st.zones;
  allocations = map (mark_devpod devpod_ns) st.allocations;
  pools = st.pools;
}

unfoldable pub decoded : Text → List KoreItem → List NodeTopology
decoded devpod_ns [] = []
decoded devpod_ns (item ∷ items) =
    let rest = decoded devpod_ns items in
    elim item.status [ none ↦ rest | some st ↦ topology_of devpod_ns item.name st ∷ rest ]

-- koreTopologyFromList.
unfoldable pub kore_topology_from_list : Text → List KoreItem → List NodeTopology
kore_topology_from_list devpod_ns items = sort_nodes (decoded devpod_ns items)

-- uid2name: of two pods with one UID the later is kept.
unfoldable pub uid_to_name : List Pod → Dict Text → Dict Text
uid_to_name [] names = names
uid_to_name (p ∷ ps) names = uid_to_name ps (insert p.metadata.uid p.metadata.name names)

abbrev pub resolve_member : Dict Text → Text → Text
resolve_member names m = elim (lookup m names) [ none ↦ m | some name ↦ name ]

abbrev pub resolve_pool : Dict Text → KorePool → KorePool
resolve_pool names p = record p { members = map (resolve_member names) p.members }

abbrev pub resolve_node : Dict Text → NodeTopology → NodeTopology
resolve_node names n = record n { pools = map (resolve_pool names) n.pools }

-- resolvePoolMembers; a list of pods that cannot be read changes nothing.
unfoldable pub resolve_pool_members : Option (List Pod) → List NodeTopology → List NodeTopology
resolve_pool_members none nodes = nodes
resolve_pool_members (some pods) nodes = map (resolve_node (uid_to_name pods [])) nodes

-- What the Reader of the Server answers.
pub record KoreReader : Type 0 where
  pub list_topologies : Option (List KoreItem)
  pub get_topology : Text → GetResult KoreItem
  pub list_pods : Option (List Pod)
  pub get_pod : Text → GetResult Pod

pub data TopologyRefusal : Type 0 where
  kore_disabled not_admin unlisted : TopologyRefusal

-- handleKoreTopology: the nodes of the reply.
unfoldable pub kore_topology :
    Backend → KoreReader → Session → Outcome TopologyRefusal (List NodeTopology)
kore_topology b k sess = do
  _ ← refuse_if (not b.kore_enabled) kore_disabled
  _ ← refuse_if (not sess.admin) not_admin
  items ← or_refuse k.list_topologies unlisted
  passed (resolve_pool_members k.list_pods (kore_topology_from_list b.ns items))

-- The cores of a DevPod: of its last allocation,
unfoldable pub own_alloc : Text → List KoreAlloc → Text → Text
own_alloc name [] mine = mine
own_alloc name (a ∷ more) mine =
    own_alloc name more (if text_eq a.devpod name then a.cpuset else mine)

unfoldable pub in_pool : Text → Text → List Text → Text → Text
in_pool name cpuset [] mine = mine
in_pool name cpuset (m ∷ ms) mine = in_pool name cpuset ms (if text_eq m name then cpuset else mine)

-- or else of the last pool that it joins.
unfoldable pub own_pool : Text → List KorePool → Text → Text
own_pool name [] mine = mine
own_pool name (p ∷ ps) mine = own_pool name ps (in_pool name p.cpuset p.members mine)

unfoldable pub own_cores : Text → NodeTopology → Text
own_cores name node =
    let mine = own_alloc name node.allocations [] in
    if is_empty mine then own_pool name node.pools mine else mine

-- The reply: no node, or a node and the cores of the DevPod.
pub data Layout : Type 0 where
  no_layout : Layout
  layout : NodeTopology → Text → Layout

unfoldable pub show_node : Text → List NodeTopology → Layout
show_node name [] = no_layout
show_node name (node ∷ nodes) =
    let mine = own_cores name node in if is_empty mine then no_layout else layout node mine

unfoldable pub show_item : Backend → KoreReader → Text → GetResult KoreItem → Layout
show_item b k name (found item) =
    show_node name (resolve_pool_members k.list_pods (kore_topology_from_list b.ns (item ∷ [])))
show_item b k name not_found = no_layout
show_item b k name (get_failed err) = no_layout

unfoldable pub show_pod : Backend → KoreReader → Text → GetResult Pod → Layout
show_pod b k name (found p) =
    if is_empty p.spec.node_name
    then no_layout
    else show_item b k name (k.get_topology p.spec.node_name)
show_pod b k name not_found = no_layout
show_pod b k name (get_failed err) = no_layout

unfoldable pub show_workload : Backend → KoreReader → Text → Option WorkloadRef → Layout
show_workload b k name none = no_layout
show_workload b k name (some ref) =
    if not b.kore_enabled || not (text_eq ref.kind (bytes "Pod"))
    then no_layout
    else show_pod b k name (k.get_pod ref.name)

-- handleDevPodTopology.
unfoldable pub devpod_topology : Backend → KoreReader → Session → Text → Outcome Refusal Layout
devpod_topology b k sess name = do
  dp ← get_owned b sess name
  passed (show_workload b k dp.metadata.name dp.status.workload_ref)
