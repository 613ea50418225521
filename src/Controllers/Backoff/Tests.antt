-- ===== src/Controllers/Backoff/Tests.antt =====
-- The first backoffs, and an instance of the theorem.
use devpods.Prelude.{◌*◌, ◌^◌, ◌≡◌, refl, [], ◌∷◌, map, arith}
use devpods.Controllers.Backoff.{double, rounds_of, failure_backoff, longest}
use devpods.Controllers.Backoff.Laws.{min, failure_backoff_doubles}

first_backoffs : map failure_backoff (0 ∷ 1 ∷ 2 ∷ 5 ∷ 6 ∷ []) ≡ 10 ∷ 10 ∷ 20 ∷ 160 ∷ 300 ∷ []
unfolding failure_backoff double rounds_of
first_backoffs = refl

failure_backoff_doubles_example : failure_backoff 4 ≡ min (10 * 2 ^ 3) longest
failure_backoff_doubles_example = failure_backoff_doubles 3 (omega arith)
