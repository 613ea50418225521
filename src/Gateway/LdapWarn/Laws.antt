-- ===== src/Gateway/LdapWarn/Laws.antt =====
-- How often a class of errors is warned of, and which number of seconds a timeout becomes.
use devpods.Prelude.{
  ℕ, ◌+◌, ◌*◌, ◌≤◌, ◌≡◌, refl, ◌⊎◌, inl, inr, true, false, some, List, [], ◌∷◌, arith,
  if◌then◌else◌, Bool-cases, All, Text, text_eq_refl, Text-cases, Dict, lookup, insert,
  lookup-insert,
}
use devpods.Gateway.LdapWarn.{minute, warn_key, is_fresh, warn_rate_limited, round_up_seconds}

-- A failure: the user name, the text of the error, and the time.
pub record Failure : Type 0 where
  pub username : Text
  pub err : Text
  pub time : ℕ

abbrev pub key_of : Failure → Text
key_of f = warn_key f.username f.err

-- The failures of a sequence that are warned of, each with its key and its time.
unfoldable pub warnings : Dict ℕ → List Failure → List (Text × ℕ)
warnings last_warn [] = []
warnings last_warn (f ∷ fs) =
    let (fresh, last_warn') = warn_rate_limited f.username f.err f.time last_warn in
    let rest = warnings last_warn' fs in if fresh then (key_of f, f.time) ∷ rest else rest

-- A warning of the key comes a minute or more after the given time.
abbrev IsLater : Text → ℕ → Text × ℕ → Type 0
IsLater key last w = w.0 ≡ key → last + minute ≤ w.1

-- Every warning is followed by those of its key at a distance of a minute or more.
abbrev pub IsSpaced : List (Text × ℕ) → Type 0
IsSpaced [] = Unit
IsSpaced (w ∷ ws) = All (IsLater w.0 w.1) ws × IsSpaced ws

-- The two ends of a call: a warning that notes its time, or a debug line.
warn_cases :
    (f : Failure) (last_warn : Dict ℕ)
    → ((is_fresh (lookup (key_of f) last_warn) f.time ≡ true)
        × (warn_rate_limited f.username f.err f.time last_warn
            ≡ (true, insert (key_of f) f.time last_warn)))
      ⊎ (warn_rate_limited f.username f.err f.time last_warn ≡ (false, last_warn))
unfolding warn_rate_limited
warn_cases f last_warn = elim (Bool-cases (is_fresh (lookup (key_of f) last_warn) f.time)) [
  | inl fresh ↦ inl (fresh, rw fresh refl)
  | inr old ↦ inr (rw old refl)
]

is_fresh_later : (last now : ℕ) → is_fresh (some last) now ≡ true → last + minute ≤ now
unfolding is_fresh
is_fresh_later last now h = ground arith

IsLater-mono :
    (key : Text) (last last' : ℕ) (ws : List (Text × ℕ))
    → last ≤ last'
    → All (IsLater key last') ws
    → All (IsLater key last) ws
IsLater-mono key last last' [] le h = tt
IsLater-mono key last last' (w ∷ ws) le (h, hs) =
    (λ e. omega (arith, h e), IsLater-mono key last last' ws le hs)

-- After a warning of the key, the next ones of that key keep their distance.
warnings-IsLater :
    (fs : List Failure) (last_warn : Dict ℕ) (key : Text) (last : ℕ)
    → lookup key last_warn ≡ some last
    → All (IsLater key last) (warnings last_warn fs)
unfolding warnings
warnings-IsLater [] last_warn key last h = tt
warnings-IsLater (f ∷ fs) last_warn key last h = elim (warn_cases f last_warn) [
  | inr e ↦ rw e (warnings-IsLater fs last_warn key last h)
  | inl (fresh, e) ↦ elim (Text-cases (key_of f) key) [
    | inl (same, eq) ↦
        let gap = is_fresh_later last f.time (rw (same, h) at fresh) in
        let ih =
          warnings-IsLater fs (insert (key_of f) f.time last_warn) key f.time
            (rw (lookup-insert (key_of f) key f.time last_warn, eq) refl) in
        rw e (λ _. gap, IsLater-mono key last f.time _ (omega (arith, gap)) ih)
    | inr (differ, ne) ↦ rw e (
      λ k. absurd (differ k),
      warnings-IsLater fs (insert (key_of f) f.time last_warn) key last
          (rw (lookup-insert (key_of f) key f.time last_warn, ne) h),
    )
  ]
]

-- In every sequence of failures, two warnings of one key, which joins a user and a class of error, lie
-- a minute or more apart, whatever was warned of before.
pub warnings-IsSpaced : (fs : List Failure) (last_warn : Dict ℕ) → IsSpaced (warnings last_warn fs)
unfolding warnings
warnings-IsSpaced [] last_warn = tt
warnings-IsSpaced (f ∷ fs) last_warn = elim (warn_cases f last_warn) [
  | inr e ↦ rw e (warnings-IsSpaced fs last_warn)
  | inl (fresh, e) ↦ rw e (
    warnings-IsLater fs (insert (key_of f) f.time last_warn) (key_of f) f.time
        (rw (lookup-insert (key_of f) (key_of f) f.time last_warn, text_eq_refl (key_of f)) refl),
    warnings-IsSpaced fs (insert (key_of f) f.time last_warn),
  )
]

-- A timeout becomes the least number of seconds, one or more, that covers it. So it is never 0, by
-- which the protocol would mean no limit.
pub round_up_seconds_least :
    (d : ℕ)
    → (1 ≤ round_up_seconds d)
      × (d ≤ round_up_seconds d * 1_000_000_000)
      × ((n : ℕ) → 1 ≤ n → d ≤ n * 1_000_000_000 → round_up_seconds d ≤ n)
unfolding round_up_seconds
round_up_seconds_least d = (ground arith, ground arith, λ n pos covers. ground arith)
