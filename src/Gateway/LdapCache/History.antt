-- ===== src/Gateway/LdapCache/History.antt =====
-- Every answer of Resolve against what the directory said over time.
use mathlib.Core.Option.{none-ne-some}
use devpods.Prelude.{
  ℕ, ◌+◌, ◌≤◌, ◌<◌, ◌≡◌, refl, subst, ◌≢◌, ◌⊎◌, inl, inr, Bool, true, false, Option, none, some,
  List, [], ◌∷◌, arith, ltb→lt, Bool-cases, Option-cases, Text, Text-cases, Dict, lookup, insert,
  lookup-insert, some-injective,
}
use devpods.Gateway.Identity.{Resolution, resolved, unknown_identity, source_error}
use devpods.Gateway.LdapCache.{
  CacheConfig, CacheEntry, Lookup, answered, lookup_error, ttl_of, resolve_result_from_entry,
  in_grace, from_cache, after_error, after_lookup, resolve,
}
use devpods.Gateway.LdapCache.Steps.{from_cache-some}

module _ {K : Type 0} (cfg : CacheConfig) (directory : Text → ℕ → Lookup K) where
  -- What the directory said of the user at an earlier time t, within the window.
  abbrev pub WasAnswered : Text → ℕ → Option (List K) → ℕ → Type 0
  WasAnswered user now keys window =
      (t : ℕ) × (directory user t ≡ answered keys) × (t ≤ now) × ((t ≡ now) ⊎ (now < t + window))

  -- Fresh answers are younger than their time to live, and stale ones than that and the grace window.
  abbrev pub IsBacked : Text → ℕ → Resolution K → Type 0
  IsBacked user now (resolved keys false) = WasAnswered user now (some keys) cfg.cache_ttl
  IsBacked user now (resolved keys true) =
      WasAnswered user now (some keys) (cfg.cache_ttl + cfg.stale_grace)
  IsBacked user now (unknown_identity false) = WasAnswered user now none cfg.negative_cache_ttl
  IsBacked user now (unknown_identity true) =
      WasAnswered user now none (cfg.negative_cache_ttl + cfg.stale_grace)
  IsBacked user now (source_error err) = directory user now ≡ lookup_error err

  -- Every entry holds what the directory said when it was fetched.
  abbrev pub IsFaithful : ℕ → Dict (CacheEntry K) → Type 0
  IsFaithful clock cache =
      (user : Text) (e : CacheEntry K)
      → lookup user cache ≡ some e
      → (directory user e.fetched_at ≡ answered e.keys) × (e.fetched_at ≤ clock)

  insert-IsFaithful :
      (clock now : ℕ) (user : Text) (e : CacheEntry K) (cache : Dict (CacheEntry K))
      → clock ≤ now
      → IsFaithful clock cache
      → directory user e.fetched_at ≡ answered e.keys
      → e.fetched_at ≤ now
      → IsFaithful now (insert user e cache)
  insert-IsFaithful clock now user e cache le ok d f other e' h = elim (Text-cases user other) [
    | inl (same, eq) ↦
        let new : e ≡ e' = some-injective (rw (lookup-insert user other e cache, eq) at h) in
        rw (← new, ← same) (d, f)
    | inr (differ, ne) ↦
        let old = ok other e' (rw (lookup-insert user other e cache, ne) at h) in
        (old.0, omega (arith, old.1))
  ]

  later-IsFaithful :
      (clock now : ℕ) (cache : Dict (CacheEntry K))
      → clock ≤ now
      → IsFaithful clock cache
      → IsFaithful now cache
  later-IsFaithful clock now cache le ok user e h =
      let old = ok user e h in (old.0, omega (arith, old.1))

  entry-IsBacked :
      (user : Text) (now : ℕ) (e : CacheEntry K) (keys : Option (List K))
      → e.keys ≡ keys
      → directory user e.fetched_at ≡ answered e.keys
      → e.fetched_at ≤ now
      → (now < e.fetched_at + ttl_of cfg e → IsBacked user now (resolve_result_from_entry e false))
        × (now < e.fetched_at + ttl_of cfg e + cfg.stale_grace
            → IsBacked user now (resolve_result_from_entry e true))
  unfolding ttl_of resolve_result_from_entry
  entry-IsBacked user now e none k d f =
      rw (ttl_of, resolve_result_from_entry, k)
        (
          λ h. (e.fetched_at, rw (← k) d, f, inr h),
          λ h. (e.fetched_at, rw (← k) d, f, inr (omega arith)),
        )
  entry-IsBacked user now e (some keys) k d f =
      rw (ttl_of, resolve_result_from_entry, k)
        (
          λ h. (e.fetched_at, rw (← k) d, f, inr h),
          λ h. (e.fetched_at, rw (← k) d, f, inr (omega arith)),
        )

  -- What a step gives: an answer that is backed, and a cache that is faithful.
  abbrev IsSound : Text → ℕ → Resolution K × Dict (CacheEntry K) → Type 0
  IsSound user now r = IsBacked user now r.0 × IsFaithful now r.1

  after_error-IsSound :
      (clock now : ℕ) (user err : Text) (cache : Dict (CacheEntry K))
      → clock ≤ now
      → IsFaithful clock cache
      → directory user now ≡ lookup_error err
      → IsSound user now (after_error cfg now user err cache)
  unfolding after_error
  after_error-IsSound clock now user err cache le ok d = elim (Option-cases (lookup user cache)) [
    | inl e ↦ rw (after_error, e) (d, later-IsFaithful clock now cache le ok)
    | inr (x, e) ↦
        let (was, young) = ok user x e in
        let marked : CacheEntry K = record x { last_err_at = some now } in
        let kept = insert-IsFaithful clock now user marked cache le ok was (omega arith) in
        elim (Bool-cases (in_grace cfg now x)) [
          | inl g ↦
              rw (after_error, e, g)
                (
                  (entry-IsBacked user now marked x.keys refl was (omega arith)).1 (ltb→lt _ _ g),
                  kept,
                )
          | inr g ↦ rw (after_error, e, g) (d, kept)
        ]
  ]

  after_lookup-IsSound :
      (clock now : ℕ) (user : Text) (live : Lookup K) (cache : Dict (CacheEntry K))
      → clock ≤ now
      → IsFaithful clock cache
      → directory user now ≡ live
      → IsSound user now (after_lookup cfg now user live cache)
  unfolding after_lookup resolve_result_from_entry
  after_lookup-IsSound clock now user (lookup_error err) cache le ok d =
      after_error-IsSound clock now user err cache le ok d
  after_lookup-IsSound clock now user (answered none) cache le ok d = (
    (now, d, omega arith, inl refl),
    insert-IsFaithful clock now user _ cache le ok d (omega arith),
  )
  after_lookup-IsSound clock now user (answered (some keys)) cache le ok d = (
    (now, d, omega arith, inl refl),
    insert-IsFaithful clock now user _ cache le ok d (omega arith),
  )

  -- From a faithful cache, a call answers with what the directory said at some time within the
  -- window, or with the error that it gives now; and the cache stays faithful.
  pub resolve-IsSound :
      (clock now : ℕ) (user : Text) (cache : Dict (CacheEntry K))
      → clock ≤ now
      → IsFaithful clock cache
      → IsSound user now (resolve cfg now user (directory user now) cache)
  unfolding resolve
  resolve-IsSound clock now user cache le ok = elim (Option-cases (lookup user cache)) [
    | inl e ↦ rw (resolve, e) (after_lookup-IsSound clock now user _ cache le ok refl)
    | inr (x, e) ↦ elim (Option-cases (from_cache cfg now x)) [
      | inl f ↦ rw (resolve, e, f) (after_lookup-IsSound clock now user _ cache le ok refl)
      | inr (r, f) ↦
          let (was, young) = ok user x e in
          let (fresh, stale) = entry-IsBacked user now x x.keys refl was (omega arith) in
          let same = later-IsFaithful clock now cache le ok in
          elim (from_cache-some cfg now x r f) [
            | inl (h, k) ↦ rw (resolve, e, f, k) (fresh h, same)
            | inr (h, k) ↦ rw (resolve, e, f, k) (stale h, same)
          ]
    ]
  ]

  -- The cache after a sequence of calls, each with its user and its time.
  abbrev pub run : List (Text × ℕ) → Dict (CacheEntry K) → Dict (CacheEntry K)
  run [] cache = cache
  run ((user, t) ∷ calls) cache = run calls (resolve cfg t user (directory user t) cache).1

  -- The clock does not go backwards.
  abbrev pub IsOrdered : ℕ → List (Text × ℕ) → ℕ → Type 0
  IsOrdered clock [] now = clock ≤ now
  IsOrdered clock ((user, t) ∷ calls) now = (clock ≤ t) × IsOrdered t calls now

  run-IsFaithful :
      (calls : List (Text × ℕ)) (clock now : ℕ) (cache : Dict (CacheEntry K))
      → IsOrdered clock calls now
      → IsFaithful clock cache
      → IsFaithful now (run calls cache)
  run-IsFaithful [] clock now cache le ok = later-IsFaithful clock now cache le ok
  run-IsFaithful ((user, t) ∷ calls) clock now cache (le, les) ok =
      run-IsFaithful calls t now _ les (resolve-IsSound clock t user cache le ok).1

  empty-IsFaithful : IsFaithful 0 []
  unfolding lookup
  empty-IsFaithful user e h = absurd (none-ne-some e h)

  -- After any calls in the order of time, from the empty cache, a call answers with what the directory
  -- said of the user at some time within the window, or with the error that the directory gives now.
  pub resolve-run-IsBacked :
      (calls : List (Text × ℕ)) (user : Text) (now : ℕ)
      → IsOrdered 0 calls now
      → IsBacked user now (resolve cfg now user (directory user now) (run calls [])).0
  resolve-run-IsBacked calls user now le =
      (resolve-IsSound now now user _ (omega arith)
        (run-IsFaithful calls 0 now [] le empty-IsFaithful)).0

  IsBacked-revoked :
      (user : Text) (now since : ℕ) (keys : List K) (stale : Bool)
      → ((t : ℕ) → since ≤ t → directory user t ≢ answered (some keys))
      → since + cfg.cache_ttl + cfg.stale_grace ≤ now
      → ¬ IsBacked user now (resolved keys stale)
  IsBacked-revoked user now since keys false gone late (t, d, le, w) =
      gone t (elim w [ inl e ↦ omega arith | inr h ↦ omega arith ]) d
  IsBacked-revoked user now since keys true gone late (t, d, le, w) =
      gone t (elim w [ inl e ↦ omega arith | inr h ↦ omega arith ]) d

  -- A revoked key set dies with the window: once the directory has stopped answering with these keys
  -- for the user, no call answers with them from the time to live and the grace window later on,
  -- whatever calls came before and whether or not the directory can still be reached.
  pub resolve-revoked :
      (calls : List (Text × ℕ)) (user : Text) (since now : ℕ) (keys : List K) (stale : Bool)
      → IsOrdered 0 calls now
      → ((t : ℕ) → since ≤ t → directory user t ≢ answered (some keys))
      → since + cfg.cache_ttl + cfg.stale_grace ≤ now
      → (resolve cfg now user (directory user now) (run calls [])).0 ≢ resolved keys stale
  resolve-revoked calls user since now keys stale le gone late e =
      IsBacked-revoked user now since keys stale gone late
        (subst (IsBacked user now) e (resolve-run-IsBacked calls user now le))
