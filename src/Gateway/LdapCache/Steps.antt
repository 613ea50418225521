-- ===== src/Gateway/LdapCache/Steps.antt =====
-- What one call of Resolve answers, by the state of the user's entry.
use devpods.Prelude.{
  ℕ, ◌+◌, ◌<◌, ◌≡◌, refl, ◌⊎◌, true, false, none, some, arith, lt→ltb, Text, Dict, lookup,
}
use devpods.Gateway.Identity.{Resolution}
use devpods.Gateway.LdapCache.{
  CacheConfig, CacheEntry, Lookup, ttl_of, resolve_result_from_entry, from_cache, resolve,
}

module _ {K : Type 0} (cfg : CacheConfig) (now : ℕ) (user : Text) (live : Lookup K) where
  -- An entry that no lookup has failed on is served as fresh until its time to live is over, and the
  -- directory is not asked: whatever it would answer, result and cache are the same.
  pub resolve_fresh :
      (e : CacheEntry K) (cache : Dict (CacheEntry K))
      → lookup user cache ≡ some e
      → e.last_err_at ≡ none
      → now < e.fetched_at + ttl_of cfg e
      → resolve cfg now user live cache ≡ (resolve_result_from_entry e false, cache)
  unfolding resolve from_cache
  resolve_fresh e cache h clean young = rw (resolve, h, from_cache, clean, lt→ltb _ _ young) refl

  -- After a failed lookup the entry is served as stale until the grace window is over, again without
  -- asking the directory.
  pub resolve_stale :
      (e : CacheEntry K) (cache : Dict (CacheEntry K)) (t : ℕ)
      → lookup user cache ≡ some e
      → e.last_err_at ≡ some t
      → now < e.fetched_at + ttl_of cfg e + cfg.stale_grace
      → resolve cfg now user live cache ≡ (resolve_result_from_entry e true, cache)
  unfolding resolve from_cache
  resolve_stale e cache t h failed young =
      rw (resolve, h, from_cache, failed, lt→ltb _ _ young) refl

-- What the check before the lookup serves: a fresh entry, or a failed one within the grace window.
pub from_cache-some :
    {K : Type 0} (cfg : CacheConfig) (now : ℕ) (e : CacheEntry K) (r : Resolution K)
    → from_cache cfg now e ≡ some r
    → ((now < e.fetched_at + ttl_of cfg e) × (r ≡ resolve_result_from_entry e false))
      ⊎ ((now < e.fetched_at + ttl_of cfg e + cfg.stale_grace)
          × (r ≡ resolve_result_from_entry e true))
unfolding from_cache
from_cache-some cfg now e r h = ground arith
