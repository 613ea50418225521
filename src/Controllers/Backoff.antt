-- ===== src/Controllers/Backoff.antt =====
-- failureBackoff of internal/controllers/devpod_controller.go. A duration is a number of seconds, and
-- the count of retries the bit pattern of its int32.
pub mod Laws
mod Tests
use devpods.Prelude.{
  ℕ, zero, suc, ◌+◌, ◌-◌, ◌*◌, ◌/◌, ◌%◌, ◌^◌, ◌≤◌, ◌<◌, ◌≡◌, refl, sym, ap, ◌∙◌, subst, ◌≢◌, ◌↔◌,
  ◌⊎◌, inl, inr, Bool, true, false, not, ◌&&◌, ◌||◌, Option, none, some, List, [], ◌∷◌, ◌++◌, map,
  append_assoc, append-nil, arith, ltb, leb, ◌==◌, if◌then◌else◌, ltb→lt, lt→ltb, leb→le, le→leb,
  ==_iff, tests, Bool-cases, Option-cases, and-true, is_none, some-injective, Outcome, refused,
  passed, ◌>>=◌, or_refuse, refuse_if, passed-injective, refused-ne-passed, Outcome-cases,
  >>=-passed, or_refuse-passed, refuse_if-passed, guarded, length, length-append, List-cases, all,
  All, All-append, Text, bytes, text_eq, text_eq_refl, text_eq_iff, Text-cases, text_neq-sym,
  is_empty, has_prefix, contains, itoa, digits, Dict, lookup, insert, remove, lookup-insert,
  lookup-remove,
}

-- 5*time.Minute
abbrev pub longest : ℕ
longest = 300

-- The loop, by the rounds that `retryCount-1` allows.
unfoldable pub double : ℕ → ℕ → ℕ
double zero d = d
double (suc rounds) d = if ltb d longest then double rounds (d * 2) else d

-- retryCount-1, where that is positive.
unfoldable pub rounds_of : ℕ → ℕ
rounds_of retry_count = if ltb retry_count (2 ^ 31) then retry_count - 1 else 0

unfoldable pub failure_backoff : ℕ → ℕ
unfolding double rounds_of
failure_backoff retry_count =
    let d = double (rounds_of retry_count) 10 in if ltb longest d then longest else d
