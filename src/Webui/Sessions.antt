-- ===== src/Webui/Sessions.antt =====
-- internal/webui/session.go: the tokens that carry a session. The codings and the signature of the Go
-- library are the fields of Codec; a time is a number of nanoseconds.
pub mod Tokens
mod Tests
use devpods.Prelude.{
  ℕ, zero, suc, ◌+◌, ◌-◌, ◌*◌, ◌/◌, ◌%◌, ◌^◌, ◌≤◌, ◌<◌, ◌≡◌, refl, sym, ap, ◌∙◌, subst, ◌≢◌, ◌↔◌,
  ◌⊎◌, inl, inr, Bool, true, false, not, ◌&&◌, ◌||◌, Option, none, some, List, [], ◌∷◌, ◌++◌, map,
  append_assoc, append-nil, arith, ltb, leb, ◌==◌, if◌then◌else◌, ltb→lt, lt→ltb, leb→le, le→leb,
  ==_iff, tests, Bool-cases, Option-cases, and-true, is_none, some-injective, Outcome, refused,
  passed, ◌>>=◌, or_refuse, refuse_if, passed-injective, refused-ne-passed, Outcome-cases,
  >>=-passed, or_refuse-passed, refuse_if-passed, guarded, length, length-append, List-cases, all,
  All, All-append, Text, bytes, text_eq, text_eq_refl, text_eq_iff, Text-cases, text_neq-sym,
  is_empty, has_prefix, contains, itoa, digits, Dict, lookup, insert, remove, lookup-insert,
  lookup-remove,
}
use devpods.Webui.Requests.{Session}

-- base64.RawURLEncoding, json of a Session, and the HMAC under the manager's key.
pub record Codec : Type 0 where
  pub encode : Text → Text
  pub decode : Text → Option Text
  pub marshal : Session → Text
  pub unmarshal : Text → Option Session
  pub mac : Text → Text

pub data SessionError : Type 0 where
  malformed_token malformed_signature invalid_signature malformed_payload expired : SessionError

-- Time.Unix.
abbrev pub unix : ℕ → ℕ
unix t = t / 1_000_000_000

-- strings.Cut at the first point.
unfoldable pub cut : Text → Option (Text × Text)
cut [] = none
cut (c ∷ s) =
    let rest = cut s in
    if c == b'.'
    then some ([], s)
    else (elim rest [ none ↦ none | some (before, after) ↦ some (c ∷ before, after) ])

module _ (c : Codec) where
  unfoldable pub sign : Text → Text
  sign payload = c.encode (c.mac payload)

  -- Mint, for a manager whose sessions live for ttl.
  unfoldable pub mint : ℕ → Text → Bool → ℕ → Text
  unfolding sign
  mint ttl user admin now =
      let sess : Session = record { user = user; admin = admin; expiry = unix (now + ttl) } in
      let payload = c.encode (c.marshal sess) in payload ++ b'.' ∷ sign payload

  -- Verify.
  unfoldable pub verify : Text → ℕ → Outcome SessionError Session
  unfolding cut
  verify token now = do
    parts ← or_refuse (cut token) malformed_token
    want ← or_refuse (c.decode parts.1) malformed_signature
    _ ← refuse_if (not (text_eq (c.mac parts.0) want)) invalid_signature
    raw ← or_refuse (c.decode parts.0) malformed_payload
    sess ← or_refuse (c.unmarshal raw) malformed_payload
    _ ← refuse_if (leb sess.expiry (unix now)) expired
    passed sess
