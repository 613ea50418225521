-- ===== src/Webui/DevPods/Creation.antt =====
-- What a DevPod that is created through the web interface is like.
use devpods.Prelude.{
  ◌≡◌, refl, sym, ap, ◌∙◌, subst, inl, inr, Bool, true, false, not, ◌&&◌, ◌||◌, [], ◌∷◌, ◌++◌,
  arith, ltb, Bool-cases, is_none, Outcome, refused, passed, or_refuse, passed-injective,
  >>=-passed, refuse_if-passed, guarded, length, Text, text_eq, text_eq_iff, is_empty, has_prefix,
}
use devpods.Api.DevPods.{DevPod}
use devpods.Webui.Requests.{
  Session, CreateRequest, Backend, Refusal, bad_request, not_owner, name_prefix, from_yaml,
  from_fields, requested_devpod, with_defaults, requested_workload, build_devpod, kore_forbidden,
}
use devpods.Webui.DevPods.{
  reject_kore, check_quota_for, stamp, check_metered, create_devpod, stamped_or, pod_annotations,
  found_or,
}
use devpods.Webui.Template.Laws.{apply_template-Keeps}
use devpods.Webui.Names.{is_label, max_dev_pod_name_len}
use devpods.Webui.DevPods.Allowance.{nil-not}
use devpods.Webui.Kore.{kore_annotation_keys}
use devpods.Webui.Template.{TemplateError}

unguarded : (a t : Bool) → a ≡ false → (not a && not t) ≡ false → t ≡ true
unguarded a t h k = ground arith

stamped_or-passed :
    (m : Outcome TemplateError DevPod) (e : Refusal) {dp : DevPod}
    → stamped_or m e ≡ passed dp
    → m ≡ passed dp
stamped_or-passed (passed a) e h = ap passed (passed-injective h)
stamped_or-passed (refused err) e h = cc

pub record Accepted (b : Backend) (sess : Session) (req : CreateRequest) (dp : DevPod)
    : Type 0 where
  pub built : DevPod
  pub is_built : build_devpod b sess req ≡ passed built
  pub no_kore : reject_kore sess built ≡ passed tt
  pub is_stamped : stamp b req built ≡ passed dp
  pub is_metered : check_metered sess dp ≡ passed tt
  pub in_quota : check_quota_for b sess dp [] ≡ passed tt

pub create_devpod-Accepted :
    (b : Backend) (sess : Session) (req : CreateRequest) (dp : DevPod)
    → create_devpod b sess req ≡ passed dp
    → Accepted b sess req dp
unfolding create_devpod
create_devpod-Accepted b sess req dp h =
    let (built, e, h1) = >>=-passed (build_devpod b sess req) _ h in
    let (_, k, h2) = >>=-passed (reject_kore sess built) _ h1 in
    let (made, s, h3) = >>=-passed (stamp b req built) _ h2 in
    let (_, m, h4) = >>=-passed (check_metered sess made) _ h3 in
    let (_, q, h5) = >>=-passed (check_quota_for b sess made []) _ h4 in
    let same = passed-injective h5 in
    record {
      built = built;
      is_built = e;
      no_kore = k;
      is_stamped = s ∙ ap passed same;
      is_metered = subst (λ x. check_metered sess x ≡ passed tt) same m;
      in_quota = subst (λ x. check_quota_for b sess x [] ≡ passed tt) same q;
    }

-- What identifies a DevPod.
abbrev pub IsOwnedBy : Text → Text → DevPod → Type 0
IsOwnedBy user ns dp =
    (dp.spec.owner ≡ user)
    × (has_prefix (name_prefix user) dp.metadata.name ≡ true)
    × (dp.metadata.namespace ≡ ns)

has_prefix-append : (p s : Text) → has_prefix p (p ++ s) ≡ true
unfolding has_prefix
has_prefix-append [] s = refl
has_prefix-append (a ∷ p) s = ground (arith, has_prefix-append p s)

from_fields-IsOwnedBy :
    (b : Backend) (sess : Session) (req : CreateRequest) (dp : DevPod)
    → from_fields b sess req ≡ passed dp
    → IsOwnedBy sess.user b.ns dp
unfolding from_fields requested_devpod
from_fields-IsOwnedBy b sess req dp h =
    let (_, h1) = guarded (is_empty req.name) bad_request _ h in
    let name = name_prefix sess.user ++ req.name in
    let (_, h2) =
      guarded (ltb max_dev_pod_name_len (length name) || not (is_label name)) bad_request _ h1 in
    let (pod, _, h3) = >>=-passed (requested_workload b req) _ h2 in
    subst (IsOwnedBy sess.user b.ns) (passed-injective h3)
      (refl, has_prefix-append (name_prefix sess.user) req.name, refl)

from_yaml-IsOwnedBy :
    (b : Backend) (sess : Session) (yaml : Text) (dp : DevPod)
    → sess.admin ≡ false
    → from_yaml b sess yaml ≡ passed dp
    → IsOwnedBy sess.user b.ns dp
unfolding from_yaml with_defaults
from_yaml-IsOwnedBy b sess yaml dp plain h =
    let (parsed, _, h1) = >>=-passed (or_refuse (b.unmarshal yaml) bad_request) _ h in
    let made = with_defaults b sess parsed in
    let (own, h2) =
      guarded (not sess.admin && not (text_eq made.spec.owner sess.user)) not_owner _ h1 in
    let (prefixed, h3) =
      guarded (not sess.admin && not (has_prefix (name_prefix sess.user) made.metadata.name))
        bad_request _ h2 in
    subst (IsOwnedBy sess.user b.ns) (passed-injective h3) (
      (text_eq_iff made.spec.owner sess.user).0 (unguarded sess.admin _ plain own),
      unguarded sess.admin _ plain prefixed,
      refl,
    )

build_devpod-IsOwnedBy :
    (b : Backend) (sess : Session) (req : CreateRequest) (dp : DevPod)
    → sess.admin ≡ false
    → build_devpod b sess req ≡ passed dp
    → IsOwnedBy sess.user b.ns dp
unfolding build_devpod
build_devpod-IsOwnedBy b sess req dp plain h = elim (Bool-cases (is_empty req.yaml)) [
  | inl fields ↦ from_fields-IsOwnedBy b sess req dp (rw fields at h)
  | inr yaml ↦ from_yaml-IsOwnedBy b sess req.yaml dp plain (rw yaml at h)
]

pub stamp_keeps :
    (b : Backend) (req : CreateRequest) (built dp : DevPod)
    → stamp b req built ≡ passed dp
    → (dp.spec.owner ≡ built.spec.owner) × (dp.metadata ≡ built.metadata)
unfolding stamp
stamp_keeps b req built dp h = elim (Bool-cases (is_empty req.template_ref)) [
  | inl without ↦
      let e = passed-injective (rw without at h) in
      (ap (λ x. x.spec.owner) (sym e), ap (λ x. x.metadata) (sym e))
  | inr with_one ↦
      let (tpl, _, h1) =
        >>=-passed (found_or (b.get_template req.template_ref) bad_request) _ (rw with_one at h) in
      let (_, h2) = guarded (not b.kore_enabled && not (is_none tpl.binding)) bad_request _ h1 in
      apply_template-Keeps b.atoi built tpl dp (stamped_or-passed _ bad_request h2)
]

-- A DevPod that a user who is no admin creates belongs to that user, is named after that user, and
-- lies in the namespace of the DevPods.
pub create_devpod-IsOwnedBy :
    (b : Backend) (sess : Session) (req : CreateRequest) (dp : DevPod)
    → sess.admin ≡ false
    → create_devpod b sess req ≡ passed dp
    → IsOwnedBy sess.user b.ns dp
create_devpod-IsOwnedBy b sess req dp plain h =
    let accepted = create_devpod-Accepted b sess req dp h in
    let (owner, prefixed, ns) =
      build_devpod-IsOwnedBy b sess req accepted.built plain accepted.is_built in
    let (o, m) = stamp_keeps b req accepted.built dp accepted.is_stamped in
    (o ∙ owner, rw m prefixed, ap (λ x. x.namespace) m ∙ ns)

-- Without a template, no DevPod that a user who is no admin creates, nor its Pod, has an annotation by
-- which Kore binds cores.
pub create_devpod-HasNoKore :
    (b : Backend) (sess : Session) (req : CreateRequest) (dp : DevPod)
    → sess.admin ≡ false
    → req.template_ref ≡ []
    → create_devpod b sess req ≡ passed dp
    → kore_annotation_keys dp.metadata.annotations
        ++ kore_annotation_keys (pod_annotations dp.spec.pod)
      ≡ []
unfolding reject_kore stamp
create_devpod-HasNoKore b sess req dp plain without h =
    let accepted = create_devpod-Accepted b sess req dp h in
    let same = passed-injective (rw without at accepted.is_stamped) in
    let free =
      nil-not _ (refuse_if-passed _ kore_forbidden (rw (reject_kore, plain) at accepted.no_kore)) in
    subst
      (λ x.
        kore_annotation_keys x.metadata.annotations
          ++ kore_annotation_keys (pod_annotations x.spec.pod)
        ≡ [])
      same free
