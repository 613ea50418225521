-- ===== src/Controllers/Users/Tests.antt =====
-- A User that is settled and one that is deleted, and instances of the theorems.
use devpods.Prelude.{
  ◌⊎◌, ◌≡◌, refl, true, false, none, some, List, [], ◌∷◌, arith, if◌then◌else◌, Text, bytes,
  text_eq, text_eq_refl,
}
use devpods.Api.Kube.{found}
use devpods.Api.Users.{User}
use devpods.Render.Samples.{host_pod}
use devpods.Controllers.Users.{FinalizerUtil, with_finalizers, update, no_write, reconcile_user}
use devpods.Controllers.Users.Deletion.{IsUnowned, reconcile_user-IsUnowned}
use devpods.Controllers.Users.Settling.{Adds, IsSettled, step, is_member, reconcile_user-IsSettled}

abbrev without : Text → List Text → List Text
without f [] = []
without f (g ∷ gs) = let rest = without f gs in if text_eq g f then rest else g ∷ rest

abbrev util : FinalizerUtil
util = record {
  add = λ f fs. if is_member f fs then (fs, false) else (f ∷ fs, true);
  remove = without;
}

util-Adds : Adds util
util-Adds = record {
  there = λ f fs h. rw h refl;
  missing = λ f fs h. rw h (refl, rw (text_eq_refl f) refl);
}

abbrev bob : User
bob = record {
  metadata = record host_pod.metadata { name = bytes "bob"; finalizers = bytes "x" ∷ [] };
  spec = record {
    pubkeys = [];
    oidc_subject = [];
    display_name = [];
    quota = none;
    password_hash = [];
    admin = false;
  };
  status = record { dev_pod_count = 9 };
}

abbrev leaving : User
leaving = record bob { metadata = record bob.metadata { deletion_timestamp = some 5 } }

reconcile_user-IsSettled_example :
    IsSettled util (host_pod ∷ []) (step util (host_pod ∷ []) (step util (host_pod ∷ []) bob))
reconcile_user-IsSettled_example = reconcile_user-IsSettled util (host_pod ∷ []) bob util-Adds refl

reconcile_user-IsUnowned_example :
    (IsUnowned (bytes "bob") (host_pod ∷ [])
      × (reconcile_user util (found leaving) (some (host_pod ∷ []))
          ≡ update (with_finalizers leaving (bytes "x" ∷ [])) false))
    ⊎ (¬ IsUnowned (bytes "bob") (host_pod ∷ [])
        × (reconcile_user util (found leaving) (some (host_pod ∷ [])) ≡ no_write))
unfolding text_eq
reconcile_user-IsUnowned_example =
    reconcile_user-IsUnowned util leaving (host_pod ∷ []) 5 refl (omega arith)
