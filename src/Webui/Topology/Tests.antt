-- ===== src/Webui/Topology/Tests.antt =====
-- A node with two allocations and a pool, and its layout for the owner of one of them.
use devpods.Prelude.{
  ◌≡◌, refl, true, false, none, some, [], ◌∷◌, passed, Text, bytes, text_eq, lookup, insert,
}
use devpods.Api.Kube.{found, not_found, Pod, pod_running}
use devpods.Api.DevPods.{DevPod}
use devpods.Render.Samples.{host_pod, workload}
use devpods.Webui.Requests.{Session, Backend}
use devpods.Webui.Topology.{
  KoreAlloc, KorePool, KoreItem, KoreReader, NodeTopology, mark_devpod, cut_slash, topology_of,
  decoded, kore_topology_from_list, sort_nodes, insert_node, text_less, uid_to_name,
  resolve_pool_members, kore_topology,
}

abbrev al : Session
al = record { user = bytes "al"; admin = false; expiry = 100 }

abbrev bound : DevPod
bound = record host_pod {
  status = record host_pod.status {
    workload_ref =
        some (record { api_version = bytes "v1"; kind = bytes "Pod"; name = bytes "al-d2" });
  };
}

abbrev backend : Backend
backend = record {
  ns = bytes "devpods";
  kore_enabled = true;
  default_quota = record { max_dev_pods = none; compute = none; storage = none };
  unmarshal = λ yaml. none;
  parse_quantity = λ value. none;
  atoi = λ value. none;
  get_user = λ user. not_found;
  get_template = λ name. not_found;
  get_devpod = λ name. found bound;
  list_devpods = none;
}

abbrev own_pod : Pod
own_pod = record {
  metadata = record host_pod.metadata { uid = bytes "p7" };
  spec = record workload.spec { node_name = bytes "n1" };
  status = record {
    phase = pod_running;
    pod_ip = bytes "10.0.0.7";
    message = [];
    reason = [];
    container_statuses = [];
  };
}

abbrev theirs : KoreAlloc
theirs = record { pod = bytes "lab/job"; container = bytes "c"; cpuset = bytes "0-3"; devpod = [] }

abbrev shared_pool : Text → KorePool
shared_pool member = record {
  name = bytes "p";
  cpuset = bytes "4-7";
  numa = [];
  members = member ∷ [];
}

abbrev node_one : KoreItem
node_one = record {
  name = bytes "n1";
  status = some (record {
    reserved_system_cpus = [];
    zones = [];
    allocations = theirs ∷ [];
    pools = shared_pool (bytes "p7") ∷ [];
  });
}

abbrev reader : KoreReader
reader = record {
  list_topologies = some (node_one ∷ record node_one { name = bytes "n0" } ∷ []);
  get_topology = λ name. found node_one;
  list_pods = some (own_pod ∷ []);
  get_pod = λ name. found own_pod;
}

abbrev shown : NodeTopology
shown = record {
  node = bytes "n1";
  reserved_cpus = [];
  zones = [];
  allocations = theirs ∷ [];
  pools = shared_pool (bytes "al-d2") ∷ [];
}

-- The nodes are sorted by name, and the member of the pool is named.
sorted_nodes :
    kore_topology backend reader (record al { admin = true })
    ≡ passed (record shown { node = bytes "n0" } ∷ shown ∷ [])
unfolding kore_topology kore_topology_from_list decoded sort_nodes insert_node text_less topology_of
    mark_devpod cut_slash resolve_pool_members uid_to_name text_eq lookup insert
sorted_nodes = refl
