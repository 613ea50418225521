-- ===== src/Gateway/LdapCache.antt =====
-- internal/gateway/ldap.go: the cache of Resolve. A call is modelled from the time that it reads and
-- from what a live lookup answers, should it make one, to its result and the cache that it leaves.
-- Calls are taken one at a time: the followers of a shared flight get the winner's result, and the
-- metrics are left out. Times and durations are counts of nanoseconds, and do not overflow.
pub mod Steps
pub mod History
mod Tests
use devpods.Prelude.{
  ℕ, zero, suc, ◌+◌, ◌-◌, ◌*◌, ◌/◌, ◌%◌, ◌^◌, ◌≤◌, ◌<◌, ◌≡◌, refl, sym, ap, ◌∙◌, subst, ◌≢◌, ◌↔◌,
  ◌⊎◌, inl, inr, Bool, true, false, not, ◌&&◌, ◌||◌, Option, none, some, List, [], ◌∷◌, ◌++◌, map,
  append_assoc, append-nil, arith, ltb, leb, ◌==◌, if◌then◌else◌, ltb→lt, lt→ltb, leb→le, le→leb,
  ==_iff, tests, Bool-cases, Option-cases, and-true, is_none, length, length-append, all, All,
  All-append, Text, bytes, text_eq, text_eq_refl, text_eq_iff, Text-cases, is_empty, Dict, lookup,
  insert, remove, lookup-insert, lookup-remove,
}
use devpods.Gateway.Identity.{Resolution, resolved, unknown_identity, source_error}

-- The settings of LDAPConfig that the cache reads.
pub record CacheConfig : Type 0 where
  pub cache_ttl : ℕ
  pub negative_cache_ttl : ℕ
  pub stale_grace : ℕ

-- A nil slice of keys, for a user that the directory does not know, is `none`; the zero time of
-- lastErrAt is `none`.
pub record CacheEntry (K : Type 0) : Type 0 where
  pub keys : Option (List K)
  pub fetched_at : ℕ
  pub last_err_at : Option ℕ

-- What liveLookup returns: its keys, nil among them, or an error.
pub data Lookup (K : Type 0) : Type 0 where
  answered : Option (List K) → Lookup K
  lookup_error : Text → Lookup K

module _ {K : Type 0} where
  unfoldable pub ttl_of : CacheConfig → CacheEntry K → ℕ
  ttl_of cfg e = if is_none e.keys then cfg.negative_cache_ttl else cfg.cache_ttl

  unfoldable pub resolve_result_from_entry : CacheEntry K → Bool → Resolution K
  resolve_result_from_entry e stale = elim e.keys [
    | none ↦ unknown_identity stale
    | some keys ↦ resolved keys stale
  ]

  -- `age < ttl`, and `age < ttl + grace`.
  unfoldable pub in_ttl : CacheConfig → ℕ → CacheEntry K → Bool
  unfolding ttl_of
  in_ttl cfg now e = ltb now (e.fetched_at + ttl_of cfg e)

  unfoldable pub in_grace : CacheConfig → ℕ → CacheEntry K → Bool
  unfolding ttl_of
  in_grace cfg now e = ltb now (e.fetched_at + ttl_of cfg e + cfg.stale_grace)

  -- The check under the read lock, before any lookup.
  unfoldable pub from_cache : CacheConfig → ℕ → CacheEntry K → Option (Resolution K)
  unfolding in_ttl in_grace resolve_result_from_entry
  from_cache cfg now e =
      if is_none e.last_err_at && in_ttl cfg now e
      then some (resolve_result_from_entry e false)
      else if not (is_none e.last_err_at) && in_grace cfg now e
      then some (resolve_result_from_entry e true)
      else none

  -- The body of the flight after a failed lookup.
  unfoldable pub after_error :
      CacheConfig → ℕ → Text → Text → Dict (CacheEntry K) → Resolution K × Dict (CacheEntry K)
  unfolding in_grace resolve_result_from_entry
  after_error cfg now username err cache = elim (lookup username cache) [
    | none ↦ (source_error err, cache)
    | some existing ↦
        let marked = record existing { last_err_at = some now } in
        let cache' = insert username marked cache in
        if in_grace cfg now existing
        then (resolve_result_from_entry marked true, cache')
        else (source_error err, cache')
  ]

  -- The body of the flight.
  unfoldable pub after_lookup :
      CacheConfig → ℕ → Text → Lookup K → Dict (CacheEntry K) → Resolution K × Dict (CacheEntry K)
  unfolding after_error
  after_lookup cfg now username (lookup_error err) cache = after_error cfg now username err cache
  after_lookup cfg now username (answered keys) cache =
      let entry : CacheEntry K = record { keys = keys; fetched_at = now; last_err_at = none } in
      (resolve_result_from_entry entry false, insert username entry cache)

  unfoldable pub resolve :
      CacheConfig → ℕ → Text → Lookup K → Dict (CacheEntry K) → Resolution K × Dict (CacheEntry K)
  resolve cfg now username live cache = elim (lookup username cache) [
    | none ↦ after_lookup cfg now username live cache
    | some e ↦ elim (from_cache cfg now e) [
      | some res ↦ (res, cache)
      | none ↦ after_lookup cfg now username live cache
    ]
  ]
