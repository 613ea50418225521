-- ===== src/Webui/Sessions/Tests.antt =====
-- A codec that numbers sessions and shifts bytes past the point, and instances of the theorems.
use devpods.Prelude.{
  ◌+◌, ◌-◌, ◌<◌, ◌≡◌, refl, ap, false, some, [], ◌∷◌, ◌++◌, arith, passed, Text, bytes,
}
use devpods.Webui.Requests.{Session}
use devpods.Webui.Sessions.{Codec, mint, verify}
use devpods.Webui.Sessions.Tokens.{HasNoPoint, verify-mint, verify-IsSigned}

shift : Text → Text
shift [] = []
shift (c ∷ s) = (c + 1000) ∷ shift s

unshift : Text → Text
unshift [] = []
unshift (c ∷ s) = (c - 1000) ∷ unshift s

unshift-shift : (s : Text) → unshift (shift s) ≡ s
unfolding unshift shift
unshift-shift [] = refl
unshift-shift (c ∷ s) = rw (unshift-shift s) (ap (λ x. x ∷ s) (omega arith))

shift-HasNoPoint : (s : Text) → HasNoPoint (shift s)
unfolding shift
shift-HasNoPoint [] = tt
shift-HasNoPoint (c ∷ s) = (λ e. omega arith, shift-HasNoPoint s)

abbrev al : Session
al = record { user = bytes "al"; admin = false; expiry = 13 }

abbrev codec : Codec
codec = record {
  encode = shift;
  decode = λ s. some (unshift s);
  marshal = λ sess. sess.expiry ∷ sess.user;
  unmarshal = λ raw. some al;
  mac = λ s. 7 ∷ s;
}

verify-mint_example :
    verify codec (mint codec 10_000_000_000 (bytes "al") false 3_000_000_000) 12_000_000_000
    ≡ passed al
verify-mint_example =
    verify-mint codec 10_000_000_000 (bytes "al") false 3_000_000_000 12_000_000_000
      (λ s. ap some (unshift-shift s)) shift-HasNoPoint refl (omega arith)

abbrev token : Text
token = mint codec 10_000_000_000 (bytes "al") false 3_000_000_000

verify-IsSigned_example :
    (payload sig raw : Text) × (token ≡ payload ++ b'.' ∷ sig)
    × (codec.decode sig ≡ some (codec.mac payload))
    × (codec.decode payload ≡ some raw)
    × (codec.unmarshal raw ≡ some al)
    × (12 < 13)
verify-IsSigned_example = verify-IsSigned codec token 12_000_000_000 al verify-mint_example
