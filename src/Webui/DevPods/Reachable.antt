-- ===== src/Webui/DevPods/Reachable.antt =====
-- The way from the web interface to the gateway: the login of a DevPod that is created.
use devpods.Prelude.{
  ◌≤◌, ◌≡◌, refl, sym, ap, ◌∙◌, true, false, not, ◌||◌, some, List, [], ◌∷◌, ◌++◌, append_assoc,
  arith, ltb, passed, passed-injective, >>=-passed, guarded, length, length-append, All, Text,
  is_empty,
}
use devpods.Api.DevPods.{DevPod}
use devpods.Gateway.LoginName.{parse_login_name, devpod_resource_name}
use devpods.Gateway.LoginName.Laws.{IsLoginPart, IsLoginChar, parse_login_name_iff}
use devpods.Webui.Names.{is_label, max_dev_pod_name_len}
use devpods.Webui.Names.Laws.{label_login}
use devpods.Webui.Requests.{
  Session, CreateRequest, Backend, bad_request, name_prefix, from_fields, requested_devpod,
  requested_workload, build_devpod,
}
use devpods.Webui.DevPods.{create_devpod}
use devpods.Webui.DevPods.Creation.{create_devpod-Accepted, stamp_keeps}

All-append-left {ℓ κ} :
    {A : Type ℓ} (P : A → Type κ) (xs ys : List A) → All P (xs ++ ys) → All P xs × All P ys
All-append-left P [] ys h = (tt, h)
All-append-left P (x ∷ xs) ys (p, h) = let (a, b) = All-append-left P xs ys h in ((p, a), b)

owner_given : (user name : Text) → is_label (name_prefix user ++ name) ≡ true → 1 ≤ length user
unfolding is_label
owner_given [] name h = cc
owner_given (c ∷ user) name h = omega arith

name_given : (name : Text) → is_empty name ≡ false → 1 ≤ length name
name_given [] h = cc
name_given (c ∷ name) h = omega arith

-- The parts of a label around a dash, of which neither is empty, are parts of a login.
label_parts :
    (user name : Text)
    → is_label (name_prefix user ++ name) ≡ true
    → is_empty name ≡ false
    → length (name_prefix user ++ name) ≤ max_dev_pod_name_len
    → IsLoginPart user × IsLoginPart name
label_parts user name label given short =
    let (chars, _) = label_login (name_prefix user ++ name) label in
    let (front, own) = All-append-left IsLoginChar (name_prefix user) name chars in
    let (owner, _) = All-append-left IsLoginChar user (b'-' ∷ []) front in
    let sum = length-append (name_prefix user) name in
    let front_sum = length-append user (b'-' ∷ []) in
    let some_owner = owner_given user name label in
    let some_name = name_given name given in
    (
      (owner, some_owner, omega (arith, sum, front_sum, short)),
      (own, some_name, omega (arith, sum, front_sum, short)),
    )

fits_cases :
    (name : Text)
    → (ltb max_dev_pod_name_len (length name) || not (is_label name)) ≡ false
    → (length name ≤ max_dev_pod_name_len) × (is_label name ≡ true)
fits_cases name h = ground arith

from_fields-named :
    (b : Backend) (sess : Session) (req : CreateRequest) (dp : DevPod)
    → from_fields b sess req ≡ passed dp
    → IsLoginPart sess.user
      × IsLoginPart req.name
      × (dp.metadata.name ≡ name_prefix sess.user ++ req.name)
unfolding from_fields requested_devpod
from_fields-named b sess req dp h =
    let name = name_prefix sess.user ++ req.name in
    let (given, h1) = guarded (is_empty req.name) bad_request _ h in
    let (fits, h2) =
      guarded (ltb max_dev_pod_name_len (length name) || not (is_label name)) bad_request _ h1 in
    let (pod, _, h3) = >>=-passed (requested_workload b req) _ h2 in
    let (short, label) = fits_cases name fits in
    let (user, own) = label_parts sess.user req.name label given short in
    (user, own, ap (λ x. x.metadata.name) (sym (passed-injective h3)))

built_from_fields :
    (b : Backend) (sess : Session) (req : CreateRequest) (dp : DevPod)
    → req.yaml ≡ []
    → build_devpod b sess req ≡ passed dp
    → from_fields b sess req ≡ passed dp
unfolding build_devpod
built_from_fields b sess req dp form h = rw form at h

-- A DevPod that is created from the fields of the form can be logged in to: the gateway reads the login
-- of the user, a plus sign and the name in the form as this user and this name, and the resource that
-- it then looks up is the DevPod.
pub create_devpod-IsReachable :
    (b : Backend) (sess : Session) (req : CreateRequest) (dp : DevPod)
    → req.yaml ≡ []
    → create_devpod b sess req ≡ passed dp
    → (parse_login_name (sess.user ++ b'+' ∷ req.name) ≡ some (sess.user, req.name))
      × (devpod_resource_name sess.user req.name ≡ dp.metadata.name)
unfolding devpod_resource_name
create_devpod-IsReachable b sess req dp form h =
    let accepted = create_devpod-Accepted b sess req dp h in
    let (user, own, named) =
      from_fields-named b sess req accepted.built
        (built_from_fields b sess req accepted.built form accepted.is_built) in
    let (_, kept) = stamp_keeps b req accepted.built dp accepted.is_stamped in
    (
      (parse_login_name_iff (sess.user ++ b'+' ∷ req.name) sess.user req.name).1 (refl, user, own),
      sym (ap (λ x. x.name) kept ∙ named ∙ append_assoc sess.user (b'-' ∷ []) req.name),
    )
