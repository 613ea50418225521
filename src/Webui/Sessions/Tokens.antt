-- ===== src/Webui/Sessions/Tokens.antt =====
-- Which tokens are accepted.
use mathlib.Core.Option.{none-ne-some}
use devpods.Prelude.{
  ℕ, ◌+◌, ◌<◌, ◌≡◌, refl, sym, ap, ◌∙◌, subst, ◌≢◌, inl, inr, Bool, false, not, some, [], ◌∷◌, ◌++◌,
  arith, leb, ◌==◌, ==_iff, Bool-cases, Option-cases, some-injective, passed, or_refuse,
  passed-injective, >>=-passed, or_refuse-passed, guarded, All, Text, text_eq, text_eq_refl,
  text_eq_iff,
}
use devpods.Webui.Requests.{Session}
use devpods.Webui.Sessions.{
  Codec, malformed_token, malformed_signature, invalid_signature, malformed_payload, expired, unix,
  cut, sign, mint, verify,
}

-- A coding has no point in it.
abbrev pub HasNoPoint : Text → Type 0
HasNoPoint = All (λ b. b ≢ b'.')

cut-append : (s t : Text) → HasNoPoint s → cut (s ++ b'.' ∷ t) ≡ some (s, t)
unfolding cut
cut-append [] t h = refl
cut-append (c ∷ s) t (h, hs) = rw (cut-append s t hs) (ground (arith, h))

cut_splits : (s before after : Text) → cut s ≡ some (before, after) → s ≡ before ++ b'.' ∷ after
unfolding cut
cut_splits [] before after h = cc
cut_splits (c ∷ s) before after h = elim (Bool-cases (c == b'.')) [
  | inl point ↦
      let same = some-injective (rw (cut, point) at h) in
      ap (λ x. x ∷ s) ((==_iff c b'.').0 point) ∙ ap (λ p. p.0 ++ b'.' ∷ p.1) same
  | inr other ↦ elim (Option-cases (cut s)) [
    | inl e ↦ absurd (none-ne-some (before, after) (rw (cut, other, e) at h))
    | inr ((front, rest), e) ↦
        let same = some-injective (rw (cut, other, e) at h) in
        ap (λ l. c ∷ l) (cut_splits s front rest e) ∙ ap (λ p. p.0 ++ b'.' ∷ p.1) same
  ]
]

signature-equal : (s t : Text) → not (text_eq s t) ≡ false → s ≡ t
signature-equal s t h = ground (arith, text_eq_iff s t)

not-expired : (a b : ℕ) → leb a b ≡ false → b < a
not-expired a b h = ground arith

later-leb : (a b : ℕ) → b < a → leb a b ≡ false
later-leb a b h = ground arith

module _ (c : Codec) where
  -- A session that is minted is read back from its token until it expires.
  pub verify-mint :
      (ttl : ℕ) (user : Text) (admin : Bool) (now later : ℕ)
      → ((s : Text) → c.decode (c.encode s) ≡ some s)
      → ((s : Text) → HasNoPoint (c.encode s))
      → c.unmarshal (c.marshal (record { user = user; admin = admin; expiry = unix (now + ttl) }))
        ≡ some (record { user = user; admin = admin; expiry = unix (now + ttl) })
      → unix later < unix (now + ttl)
      → verify c (mint c ttl user admin now) later
        ≡ passed (record { user = user; admin = admin; expiry = unix (now + ttl) })
  unfolding verify mint sign
  verify-mint ttl user admin now later coded pointless marshalled early =
      let sess : Session = record { user = user; admin = admin; expiry = unix (now + ttl) } in
      let payload = c.encode (c.marshal sess) in
      rw
        (
          cut-append payload (c.encode (c.mac payload)) (pointless (c.marshal sess)),
          coded (c.mac payload),
          text_eq_refl (c.mac payload),
          coded (c.marshal sess),
          marshalled,
          later-leb (unix (now + ttl)) (unix later) early,
        )
        refl

  -- A token that is accepted is a payload and a signature around a point: the signature is that of the
  -- payload under the manager's key, the session is what the payload says, and it has not expired.
  pub verify-IsSigned :
      (token : Text) (now : ℕ) (sess : Session)
      → verify c token now ≡ passed sess
      → (payload sig raw : Text) × (token ≡ payload ++ b'.' ∷ sig)
        × (c.decode sig ≡ some (c.mac payload))
        × (c.decode payload ≡ some raw)
        × (c.unmarshal raw ≡ some sess)
        × (unix now < sess.expiry)
  unfolding verify
  verify-IsSigned token now sess h =
      let (parts, e, h1) = >>=-passed (or_refuse (cut token) malformed_token) _ h in
      let (want, s, h2) = >>=-passed (or_refuse (c.decode parts.1) malformed_signature) _ h1 in
      let (mac, h3) = guarded (not (text_eq (c.mac parts.0) want)) invalid_signature _ h2 in
      let (raw, r, h4) = >>=-passed (or_refuse (c.decode parts.0) malformed_payload) _ h3 in
      let (made, m, h5) = >>=-passed (or_refuse (c.unmarshal raw) malformed_payload) _ h4 in
      let (early, h6) = guarded (leb made.expiry (unix now)) expired _ h5 in
      let same = passed-injective h6 in
      (
        parts.0,
        parts.1,
        raw,
        cut_splits token parts.0 parts.1 (or_refuse-passed (cut token) malformed_token e),
        or_refuse-passed (c.decode parts.1) malformed_signature s
            ∙ ap some (sym (signature-equal (c.mac parts.0) want mac)),
        or_refuse-passed (c.decode parts.0) malformed_payload r,
        or_refuse-passed (c.unmarshal raw) malformed_payload m ∙ ap some same,
        subst (λ x. unix now < x.expiry) same (not-expired made.expiry (unix now) early),
      )
