-- ===== src/Gateway/LdapCache/Tests.antt =====
-- Runs of the cache, and instances of its theorems.
use devpods.Prelude.{
  ℕ, ◌≤◌, ◌≡◌, refl, ◌≢◌, true, none, some, List, [], ◌∷◌, arith, ltb, if◌then◌else◌, Text, bytes,
  text_eq, lookup,
}
use devpods.Gateway.Identity.{resolved}
use devpods.Gateway.LdapCache.{
  CacheConfig, CacheEntry, Lookup, answered, lookup_error, from_cache, after_lookup, resolve,
}
use devpods.Gateway.LdapCache.History.{IsBacked, run, resolve-run-IsBacked, resolve-revoked}

abbrev limits : CacheConfig
limits = record { cache_ttl = 10; negative_cache_ttl = 5; stale_grace = 20 }

-- Key 7 is listed before time 100, nothing later.
abbrev directory : Text → ℕ → Lookup ℕ
directory user t = answered (if ltb t 100 then some (7 ∷ []) else none)

abbrev entry : CacheEntry ℕ
entry = record { keys = some (7 ∷ []); fetched_at = 50; last_err_at = none }

abbrev failed_entry : CacheEntry ℕ
failed_entry = record entry { last_err_at = some 61 }

-- The directory is down when the entry is 11 old, so it is served as stale.
soft_fail :
    (resolve limits 61 (bytes "al") (lookup_error (bytes "down")) ((bytes "al", entry) ∷ [])).0
    ≡ resolved (7 ∷ []) true
unfolding resolve from_cache after_lookup lookup text_eq
soft_fail = refl

abbrev calls : List (Text × ℕ)
calls = (bytes "al", 50) ∷ (bytes "bo", 99) ∷ []

resolve-run-IsBacked_example :
    IsBacked limits directory
      (bytes "al")
      105
      (resolve limits 105
        (bytes "al")
        (directory (bytes "al") 105)
        (run limits directory calls [])).0
resolve-run-IsBacked_example =
    resolve-run-IsBacked limits directory calls (bytes "al") 105 (omega arith)

listed_until : (t : ℕ) → 100 ≤ t → directory (bytes "al") t ≢ answered (some (7 ∷ []))
listed_until t h e = ground arith

resolve-revoked_example :
    (resolve limits 130 (bytes "al") (directory (bytes "al") 130) (run limits directory calls [])).0
    ≢ resolved (7 ∷ []) true
resolve-revoked_example =
    resolve-revoked limits directory calls (bytes "al") 100 130 (7 ∷ []) true (omega arith)
      listed_until (omega arith)
