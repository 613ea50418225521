-- ===== src/Webui/DevPods/Tests.antt =====
-- A DevPod that is created and one that is woken, and instances of the theorems.
use devpods.Prelude.{
  ◌+ℤ◌, List, pos, ◌≡◌, refl, ◌≢◌, true, false, none, some, List, [], ◌∷◌, Outcome, refused, passed,
  bytes, text_eq, lookup, insert,
}
use devpods.Api.Kube.{found, not_found}
use devpods.Api.DevPods.{DevPod}
use devpods.Webui.Quota.{
  check_quota, effective_quota, require_limits, count_violations, count_exceeds,
  all_compute_violations, storage_violations, total_storage, storage_of, running_pod,
  first_without_limits,
}
use devpods.Webui.Requests.{
  Session, CreateRequest, Backend, build_devpod, from_fields, requested_workload, add_limit,
  workload_of, requested_devpod, Refusal,
}
use devpods.Webui.DevPods.{
  create_devpod, owned, but_for, check_quota_for, reject_kore, stamp, check_metered, check_workload,
}
use devpods.Webui.DevPods.Ownership.{with_running}
use devpods.Webui.DevPods.Creation.{IsOwnedBy, create_devpod-IsOwnedBy}
use devpods.Webui.Names.{is_label_rest, is_label}
use devpods.Webui.DevPods.Reachable.{create_devpod-IsReachable}
use devpods.Gateway.LoginName.{parse_login_name, devpod_resource_name}
use devpods.Render.Samples.{host_pod}
use devpods.Webui.Kore.{kore_annotation_keys}

abbrev asleep : DevPod
asleep = record host_pod { spec = record host_pod.spec { running = false } }

abbrev woken : DevPod
woken = with_running true asleep

abbrev al : Session
al = record { user = bytes "al"; admin = false; expiry = 100 }

abbrev eve : Session
eve = record al { user = bytes "eve" }

abbrev backend : Backend
backend = record {
  ns = bytes "devpods";
  kore_enabled = false;
  default_quota = record { max_dev_pods = some (pos 3); compute = none; storage = some (pos 100) };
  unmarshal = λ yaml. none;
  parse_quantity = λ value. some (pos 2000);
  atoi = λ value. none;
  get_user = λ user. not_found;
  get_template = λ name. not_found;
  get_devpod = λ name. found asleep;
  list_devpods = some (asleep ∷ []);
}

abbrev request : CreateRequest
request = record {
  name = bytes "box";
  template_ref = [];
  yaml = [];
  image = bytes "img";
  cpu_limit = bytes "2";
  memory_limit = bytes "2k";
  shell = [];
  persistence = none;
}

abbrev or_asleep : Outcome Refusal DevPod → DevPod
or_asleep (passed dp) = dp
or_asleep (refused e) = asleep

abbrev made : DevPod
made = or_asleep (create_devpod backend al request)

made_ok : create_devpod backend al request ≡ passed made
unfolding create_devpod build_devpod from_fields requested_workload add_limit workload_of
    requested_devpod reject_kore kore_annotation_keys stamp check_metered check_workload
    require_limits first_without_limits check_quota_for owned but_for effective_quota check_quota
    count_violations count_exceeds all_compute_violations storage_violations total_storage
    storage_of running_pod ◌+ℤ◌ is_label is_label_rest lookup insert text_eq
made_ok = refl

create_devpod-IsOwnedBy_example : IsOwnedBy (bytes "al") (bytes "devpods") made
create_devpod-IsOwnedBy_example = create_devpod-IsOwnedBy backend al request made refl made_ok

not_eve : bytes "al" ≢ bytes "eve"
not_eve h = cc

create_devpod-IsReachable_example :
    (parse_login_name (bytes "al+box") ≡ some (bytes "al", bytes "box"))
    × (devpod_resource_name (bytes "al") (bytes "box") ≡ made.metadata.name)
create_devpod-IsReachable_example = create_devpod-IsReachable backend al request made refl made_ok
