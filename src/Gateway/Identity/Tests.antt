-- ===== src/Gateway/Identity/Tests.antt =====
-- Runs of the User-backed identity source.
use devpods.Prelude.{◌≡◌, refl, false, bytes}
use devpods.Api.Kube.{not_found}
use devpods.Gateway.Identity.{crd_resolve, unknown_identity}
use devpods.Gateway.Samples.{plain_ssh}

missing_user : crd_resolve plain_ssh (λ name. not_found) (bytes "al") ≡ unknown_identity false
unfolding crd_resolve
missing_user = refl
