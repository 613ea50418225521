-- ===== src/Webui/DevPods/Ownership.antt =====
-- Who may read, change and delete a DevPod through the web interface.
use devpods.Prelude.{
  ◌≡◌, refl, ap, ◌∙◌, subst, ◌≢◌, ◌⊎◌, inl, inr, Bool, true, false, not, ◌&&◌, Bool-cases, refused,
  passed, passed-injective, refused-ne-passed, Text, text_eq, Text-cases,
}
use devpods.Api.Kube.{GetResult-cases, found, not_found}
use devpods.Api.DevPods.{DevPod}
use devpods.Webui.Requests.{Session, Backend, no_devpod}
use devpods.Webui.DevPods.{get_owned, same}

abbrev pub MayHandle : Session → DevPod → Type 0
MayHandle sess dp = (dp.spec.owner ≡ sess.user) ⊎ (sess.admin ≡ true)

may_handle :
    (sess : Session) (dp : DevPod)
    → ((MayHandle sess dp) × ((not (text_eq dp.spec.owner sess.user) && not sess.admin) ≡ false))
      ⊎ ((dp.spec.owner ≢ sess.user)
          × (sess.admin ≡ false)
          × ((not (text_eq dp.spec.owner sess.user) && not sess.admin) ≡ true))
may_handle sess dp = elim (Text-cases dp.spec.owner sess.user) [
  | inl (same, eq) ↦ inl (inl same, rw eq refl)
  | inr (differ, ne) ↦ elim (Bool-cases sess.admin) [
    | inl admin ↦ inl (inr admin, rw (ne, admin) refl)
    | inr plain ↦ inr (differ, plain, rw (ne, plain) refl)
  ]
]

-- A handler gets hold of a DevPod only for its owner or an admin.
pub get_owned-MayHandle :
    (b : Backend) (sess : Session) (name : Text) (dp : DevPod)
    → get_owned b sess name ≡ passed dp
    → (b.get_devpod name ≡ found dp) × MayHandle sess dp
unfolding get_owned
get_owned-MayHandle b sess name dp h = elim (GetResult-cases (b.get_devpod name)) [
  | inr (inl missing) ↦ absurd (refused-ne-passed (rw (get_owned, missing) at h))
  | inr (inr (err, failed)) ↦ absurd (refused-ne-passed (rw (get_owned, failed) at h))
  | inl (there, e) ↦ elim (may_handle sess there) [
    | inr (differ, plain, eq) ↦ absurd (refused-ne-passed (rw (get_owned, e, eq) at h))
    | inl (may, eq) ↦
        let same = passed-injective (rw (get_owned, e, eq) at h) in
        (e ∙ ap found same, subst (MayHandle sess) same may)
  ]
]

-- To anyone else a DevPod that exists looks like one that does not: the reply is the same.
pub get_owned_hides :
    (b : Backend) (sess : Session) (name : Text) (dp : DevPod)
    → b.get_devpod name ≡ found dp
    → dp.spec.owner ≢ sess.user
    → sess.admin ≡ false
    → (get_owned b sess name ≡ refused no_devpod)
      × (get_owned (record b { get_devpod = λ n. not_found }) sess name ≡ refused no_devpod)
unfolding get_owned
get_owned_hides b sess name dp e differ plain = elim (may_handle sess dp) [
  | inl (inl same, eq) ↦ absurd (differ same)
  | inl (inr admin, eq) ↦ cc
  | inr (differ', plain', eq) ↦ (rw (get_owned, e, eq) refl, refl)
]

abbrev pub with_running : Bool → DevPod → DevPod
with_running wanted dp = record dp { spec = record dp.spec { running = wanted } }
