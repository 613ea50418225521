-- ===== src/Gateway/Auth/Tests.antt =====
-- Runs of Authenticate, and instances of its theorems.
use devpods.Prelude.{arith, ◌≡◌, refl, inl, inr, true, [], ◌∷◌, bytes, text_eq, lookup}
use devpods.Gateway.LoginName.{parse_login_name, devpod_resource_name}
use devpods.Gateway.LoginName.Laws.{IsLoginPart}
use devpods.Gateway.Identity.{direct}
use devpods.Gateway.Auth.{
  AuthResult, accepted, matches_any_parsed, run_chain, find_devpod, authenticate_devpod,
  authenticate, finalize, access_allowed,
}
use devpods.Gateway.Auth.Outcomes.{Explained, authenticate-Explained, authenticate-accepts}
use devpods.Gateway.Samples.{plain_ssh, alice_devpod, get_alice, down, keyed}

-- The owner's key is in the second source, behind one that is down.
login_accepted :
    authenticate plain_ssh get_alice [] (down ∷ keyed ∷ []) (bytes "al+d2") (bytes "k")
    ≡ accepted (record {
      user = bytes "al";
      devpod_name = bytes "al-d2";
      endpoint = bytes "10.0.0.9:2222";
      auth_path = record {
        kind = direct;
        alias = [];
        user = bytes "al";
        pod = bytes "d2";
        source = bytes "ldap";
        served_stale = true;
        last_source_err = bytes "crd: timeout";
      };
    })
unfolding authenticate find_devpod authenticate_devpod run_chain matches_any_parsed finalize
    access_allowed parse_login_name devpod_resource_name lookup text_eq
login_accepted = refl

authenticate-Explained_example :
    Explained plain_ssh get_alice []
      (down ∷ keyed ∷ [])
      (bytes "k")
      (bytes "al+d2")
      (authenticate plain_ssh get_alice [] (down ∷ keyed ∷ []) (bytes "al+d2") (bytes "k"))
authenticate-Explained_example =
    authenticate-Explained plain_ssh get_alice [] (down ∷ keyed ∷ []) (bytes "k") (bytes "al+d2")

al-IsLoginPart : IsLoginPart (bytes "al")
al-IsLoginPart = omega arith

d2-IsLoginPart : IsLoginPart (bytes "d2")
d2-IsLoginPart = omega arith

authenticate-accepts_example :
    (r : AuthResult) × (authenticate plain_ssh get_alice []
        (down ∷ keyed ∷ [])
        (bytes "al+d2")
        (bytes "k")
      ≡ accepted r)
unfolding parse_login_name find_devpod devpod_resource_name matches_any_parsed text_eq
authenticate-accepts_example =
    authenticate-accepts plain_ssh get_alice [] (down ∷ keyed ∷ []) (bytes "k") (bytes "al+d2")
      (bytes "al") (bytes "d2") alice_devpod (refl, al-IsLoginPart, d2-IsLoginPart) (inl refl)
      (inl refl) (refl, λ e. cc)
      (inr (down ∷ [], keyed, [], refl, (bytes "k" ∷ [], true, refl, inl refl)))
