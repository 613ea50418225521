-- ===== src/Webui/Quota/Tests.antt =====
-- A quota that is exceeded, and instances of the theorems.
use devpods.Prelude.{
  pos, negsuc, none, ◌+ℤ◌, ◌≡◌, refl, ◌↔◌, some, [], ◌∷◌, map, arith, text_eq, lookup, insert,
}
use devpods.Api.Kube.{Container}
use devpods.Api.DevPods.{DevPod}
use devpods.Render.Samples.{host_pod, workload, app}
use devpods.Webui.Quota.{
  cpu, check_quota, require_limits, first_without_limits, memory, count_violations, count_exceeds,
  all_compute_violations, compute_violations, storage_violations, total_storage, storage_of,
  running_pod, add_running, count_one, pod_limits, add_containers, add_list, sorted_names,
  insert_name,
}
use devpods.Api.Users.{UserQuota}
use devpods.Webui.Quota.Sums.{Unique, HaveUnique}
use devpods.Webui.Quota.Checked.{IsWithin, check_quota_iff}

abbrev limited : Container
limited = record app { limits = (cpu, pos 2) ∷ (memory, pos 5) ∷ [] }

abbrev small : DevPod
small = record host_pod {
  spec = record host_pod.spec {
    pod = some (record workload {
      spec = record workload.spec { containers = limited ∷ []; init_containers = limited ∷ [] };
    });
  };
}

abbrev quota : UserQuota
quota = record {
  max_dev_pods = some (pos 2);
  compute = some ((cpu, pos 7) ∷ []);
  storage = some (pos 20);
}

exceeded : map (λ v. v.used) (check_quota quota (small ∷ []) small) ≡ pos 4 ∷ []
unfolding check_quota count_violations count_exceeds all_compute_violations compute_violations
    storage_violations total_storage storage_of running_pod add_running count_one pod_limits
    add_containers add_list lookup insert text_eq sorted_names insert_name ◌+ℤ◌
exceeded = refl

-- A DevPod with a negative limit makes room for another that would exceed the quota.
abbrev negative : DevPod
negative = record host_pod {
  spec = record host_pod.spec {
    persistence = none;
    pod = some (record workload {
      spec = record workload.spec {
        containers = record app { limits = (cpu, negsuc 3) ∷ (memory, pos 5) ∷ [] } ∷ [];
      };
    });
  };
}

room_made :
    (check_quota
        (record quota { max_dev_pods = none; storage = none })
        (small ∷ negative ∷ [])
        small
      ≡ [])
    × (require_limits (record workload.spec {
      containers = record app { limits = (cpu, negsuc 3) ∷ (memory, pos 5) ∷ [] } ∷ [];
    })
        ≡ none)
unfolding check_quota count_violations count_exceeds all_compute_violations compute_violations
    storage_violations total_storage storage_of running_pod add_running count_one pod_limits
    add_containers add_list lookup insert text_eq sorted_names insert_name require_limits
    first_without_limits ◌+ℤ◌
room_made = (refl, refl)

check_quota_iff_example :
    (check_quota quota (small ∷ []) small ≡ []) ↔ IsWithin quota (small ∷ []) small
unfolding Unique lookup text_eq
check_quota_iff_example =
    let limits : HaveUnique (limited ∷ []) = ((refl, (refl, tt)), tt) in
    check_quota_iff quota (small ∷ []) small (omega arith) ((limits, limits), tt) (limits, limits)
