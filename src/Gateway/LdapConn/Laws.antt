-- ===== src/Gateway/LdapConn/Laws.antt =====
-- When liveLookup answers, and what it leaves in the pool.
use devpods.Prelude.{
  [], ◌∷◌, ◌≡◌, refl, sym, subst, ◌⊎◌, inl, inr, Bool, true, false, Option, none, some, List, ◌++◌,
  arith, Option-cases, Text, bytes, ◌∙◌,
}
use devpods.Gateway.Identity.{SshLib, parse_keys}
use devpods.Gateway.LdapCache.{Lookup, answered, lookup_error}
use devpods.Gateway.LdapConn.{
  Search, entries, search_error, Network, acquire_conn, keys_of_entries, retry, live_lookup,
}

-- A connection is there, pooled or dialled.
abbrev pub IsConnected : Network → Bool → Type 0
IsConnected net pooled = (pooled ≡ true) ⊎ (net.dial ≡ none)

-- The first search ends with these entries, or it fails, the dial that follows succeeds, and the
-- second search ends with them.
abbrev pub Finds : Network → List (List Text) → Type 0
Finds net es =
    (net.search ≡ entries es)
    ⊎ ((err : Text) × (net.search ≡ search_error err)
        × (net.redial ≡ none)
        × (net.research ≡ entries es))

acquire_conn_ok :
    (pooled : Bool) (dial : Option Text)
    → (pooled ≡ true) ⊎ (dial ≡ none)
    → acquire_conn pooled dial ≡ (none, true)
unfolding acquire_conn
acquire_conn_ok true dial h = refl
acquire_conn_ok false dial (inl h) = cc
acquire_conn_ok false dial (inr h) = rw h refl

module _ (ssh : SshLib) (net : Network) where
  open ssh use {Key, parse_authorized_key}

  -- The keys are those of the values that parse, in their order.
  abbrev pub AreParsed : List Text → List Key → Type 0
  AreParsed [] keys = keys ≡ []
  AreParsed (v ∷ vs) keys =
      ((parse_authorized_key v ≡ none) × AreParsed vs keys)
      ⊎ ((k : Key) × (rest : List Key) × (parse_authorized_key v ≡ some k)
          × (keys ≡ k ∷ rest)
          × AreParsed vs rest)

  -- No entry is no user; of several the first counts.
  abbrev pub IsAnswer : List (List Text) → Option (List Key) → Type 0
  IsAnswer [] answer = answer ≡ none
  IsAnswer (vals ∷ _) answer = (keys : List Key) × (answer ≡ some keys) × AreParsed vals keys

  -- Why a lookup fails, with the message, and whether the connection stays in the pool.
  abbrev pub IsUndialled : Bool → Text → Bool → Type 0
  IsUndialled pooled msg conn =
      (e : Text) × (pooled ≡ false)
      × (net.dial ≡ some e)
      × (msg ≡ bytes "ldap dial/bind: " ++ e)
      × (conn ≡ false)

  abbrev pub IsUnrendered : Bool → Text → Bool → Type 0
  IsUnrendered pooled msg conn =
      (e : Text) × IsConnected net pooled
      × (net.render ≡ some e)
      × (msg ≡ bytes "ldap render filter: " ++ e)
      × (conn ≡ true)

  -- Both tries fail: there is no new connection, and the message is that of the first search, or the
  -- second search fails too.
  abbrev pub IsUnsearched : Bool → Text → Bool → Type 0
  IsUnsearched pooled msg conn =
      IsConnected net pooled
      × (net.render ≡ none)
      × ((err : Text) × (net.search ≡ search_error err)
          × (((e : Text) × (net.redial ≡ some e) × (msg ≡ bytes "ldap search: " ++ err))
              ⊎ ((e : Text) × (net.redial ≡ none)
                  × (net.research ≡ search_error e)
                  × (msg ≡ bytes "ldap search: " ++ e))))
      × (conn ≡ false)

  abbrev pub IsJustified : Bool → Lookup Key × Bool → Type 0
  IsJustified pooled (answered answer, conn) =
      IsConnected net pooled
      × (net.render ≡ none)
      × ((es : List (List Text)) × Finds net es × IsAnswer es answer)
      × (conn ≡ true)
  IsJustified pooled (lookup_error msg, conn) =
      IsUndialled pooled msg conn ⊎ (IsUnrendered pooled msg conn ⊎ IsUnsearched pooled msg conn)

  parse_keys-AreParsed : (vals : List Text) → AreParsed vals (parse_keys ssh vals)
  unfolding parse_keys
  parse_keys-AreParsed [] = refl
  parse_keys-AreParsed (v ∷ vs) =
      let rest = parse_keys-AreParsed vs in
      elim (Option-cases (parse_authorized_key v)) [
        | inl e ↦ inl (e, rw (parse_keys, e) rest)
        | inr (k, e) ↦ inr (k, parse_keys ssh vs, e, rw (parse_keys, e) refl, rest)
      ]

  keys_of_entries-IsAnswer : (es : List (List Text)) → IsAnswer es (keys_of_entries ssh es)
  unfolding keys_of_entries
  keys_of_entries-IsAnswer [] = refl
  keys_of_entries-IsAnswer (vals ∷ es) = (parse_keys ssh vals, refl, parse_keys-AreParsed vals)

  retry_found :
      (err : Text) (es : List (List Text))
      → net.redial ≡ none
      → net.research ≡ entries es
      → retry ssh net err ≡ (answered (keys_of_entries ssh es), true)
  unfolding retry
  retry_found err es d h = ground arith

  retry_undialled :
      (err e : Text)
      → net.redial ≡ some e
      → retry ssh net err ≡ (lookup_error (bytes "ldap search: " ++ err), false)
  unfolding retry
  retry_undialled err e d = ground arith

  retry_lost :
      (err e : Text)
      → net.redial ≡ none
      → net.research ≡ search_error e
      → retry ssh net err ≡ (lookup_error (bytes "ldap search: " ++ e), false)
  unfolding retry
  retry_lost err e d h = ground arith

  searched :
      (pooled : Bool) (es : List (List Text))
      → acquire_conn pooled net.dial ≡ (none, true)
      → net.render ≡ none
      → net.search ≡ entries es
      → live_lookup ssh net pooled ≡ (answered (keys_of_entries ssh es), true)
  unfolding live_lookup
  searched pooled es c r h = ground arith

  retried :
      (pooled : Bool) (err : Text)
      → acquire_conn pooled net.dial ≡ (none, true)
      → net.render ≡ none
      → net.search ≡ search_error err
      → live_lookup ssh net pooled ≡ retry ssh net err
  unfolding live_lookup
  retried pooled err c r h = ground arith

  undialled :
      (e : Text)
      → net.dial ≡ some e
      → live_lookup ssh net false ≡ (lookup_error (bytes "ldap dial/bind: " ++ e), false)
  unfolding live_lookup acquire_conn
  undialled e d = ground arith

  unrendered :
      (pooled : Bool) (e : Text)
      → acquire_conn pooled net.dial ≡ (none, true)
      → net.render ≡ some e
      → live_lookup ssh net pooled ≡ (lookup_error (bytes "ldap render filter: " ++ e), true)
  unfolding live_lookup
  unrendered pooled e c r = ground arith

  retry-IsJustified :
      (pooled : Bool) (err : Text) (r : Search)
      → IsConnected net pooled
      → net.render ≡ none
      → net.search ≡ search_error err
      → net.research ≡ r
      → IsJustified pooled (retry ssh net err)
  retry-IsJustified pooled err (entries es) c r s h = elim (Option-cases net.redial) [
    | inr (e, d) ↦
        subst (IsJustified pooled) (sym (retry_undialled err e d))
          (inr (inr (c, r, (err, s, inl (e, d, refl)), refl)))
    | inl d ↦
        subst (IsJustified pooled) (sym (retry_found err es d h))
          (c, r, (es, inr (err, s, d, h), keys_of_entries-IsAnswer es), refl)
  ]
  retry-IsJustified pooled err (search_error e') c r s h = elim (Option-cases net.redial) [
    | inr (e, d) ↦
        subst (IsJustified pooled) (sym (retry_undialled err e d))
          (inr (inr (c, r, (err, s, inl (e, d, refl)), refl)))
    | inl d ↦
        subst (IsJustified pooled) (sym (retry_lost err e' d h))
          (inr (inr (c, r, (err, s, inr (e', d, h, refl)), refl)))
  ]

  search-IsJustified :
      (pooled : Bool) (found : Search)
      → IsConnected net pooled
      → net.render ≡ none
      → net.search ≡ found
      → IsJustified pooled (live_lookup ssh net pooled)
  search-IsJustified pooled (entries es) c r h =
      subst (IsJustified pooled) (sym (searched pooled es (acquire_conn_ok pooled net.dial c) r h))
        (c, r, (es, inl h, keys_of_entries-IsAnswer es), refl)
  search-IsJustified pooled (search_error err) c r h =
      subst (IsJustified pooled) (sym (retried pooled err (acquire_conn_ok pooled net.dial c) r h))
        (retry-IsJustified pooled err net.research c r h refl)

  connected-IsJustified :
      (pooled : Bool) → IsConnected net pooled → IsJustified pooled (live_lookup ssh net pooled)
  connected-IsJustified pooled c = elim (Option-cases net.render) [
    | inr (e, r) ↦
        subst (IsJustified pooled) (sym (unrendered pooled e (acquire_conn_ok pooled net.dial c) r))
          (inr (inl (e, c, r, refl, refl)))
    | inl r ↦ search-IsJustified pooled net.search c r refl
  ]

  -- A lookup that answers had a connection, pooled or dialled, and a filter; one of its two searches, the
  -- second only after a failed first one and a new connection, found entries, and the answer is the keys
  -- that parse among the values of the first entry, or that there is no entry; the connection is pooled. A
  -- lookup that fails could not dial, could not render the filter, or failed in both tries; the message
  -- says which, and only after the filter a connection stays pooled.
  pub live_lookup-IsJustified : (pooled : Bool) → IsJustified pooled (live_lookup ssh net pooled)
  live_lookup-IsJustified true = connected-IsJustified true (inl refl)
  live_lookup-IsJustified false = elim (Option-cases net.dial) [
    | inl d ↦ connected-IsJustified false (inr d)
    | inr (e, d) ↦ subst (IsJustified false) (sym (undialled e d)) (inl (e, refl, d, refl, refl))
  ]

  -- A lookup that can be made, and of which one of the two searches succeeds, answers with the keys
  -- of the first entry, and keeps its connection: one broken connection costs no error.
  live_lookup-Finds :
      (pooled : Bool) (es : List (List Text))
      → IsConnected net pooled
      → net.render ≡ none
      → Finds net es
      → live_lookup ssh net pooled ≡ (answered (keys_of_entries ssh es), true)
  live_lookup-Finds pooled es c r (inl s) =
      searched pooled es (acquire_conn_ok pooled net.dial c) r s
  live_lookup-Finds pooled es c r (inr (err, s, d, s')) =
      retried pooled err (acquire_conn_ok pooled net.dial c) r s ∙ retry_found err es d s'
