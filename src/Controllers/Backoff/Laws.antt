-- ===== src/Controllers/Backoff/Laws.antt =====
-- How long a failed Pod waits.
use devpods.Prelude.{
  ℕ, zero, suc, ◌+◌, ◌-◌, ◌*◌, ◌^◌, ◌≤◌, ◌<◌, ◌≡◌, ap, ◌∙◌, inl, inr, false, arith, ltb,
  if◌then◌else◌, lt→ltb, Bool-cases,
}
use devpods.Controllers.Backoff.{double, failure_backoff, longest, rounds_of}

abbrev pub min : ℕ → ℕ → ℕ
min a b = if ltb b a then b else a

pow_suc : (k : ℕ) → 2 ^ suc k ≡ 2 * 2 ^ k
pow_suc k = omega arith

pow_pos : (k : ℕ) → 1 ≤ 2 ^ k
pow_pos zero = omega arith
pow_pos (suc k) = omega (arith, pow_suc k, pow_pos k)

grows_by : (d b : ℕ) → 1 ≤ b → d ≤ d * b
grows_by d zero h = omega (arith, h)
grows_by d (suc b) h = omega arith

times_pow : (d k : ℕ) → d * 2 * 2 ^ k ≡ d * 2 ^ suc k
times_pow d k = grind (arith, pow_suc k)

min_large : (a b c : ℕ) → c ≤ a → a ≤ b → min a c ≡ min b c
min_large a b c h k = ground arith

times_one : (d : ℕ) → d ≡ d * 2 ^ 0
times_one d = omega arith

grows : (d k : ℕ) → d ≤ d * 2 ^ k
grows d k = grows_by d (2 ^ k) (pow_pos k)

double_grows : (rounds d : ℕ) → d ≤ double rounds d
unfolding double
double_grows zero d = omega arith
double_grows (suc rounds) d = ground (arith, double_grows rounds (d * 2))

not-short : (d : ℕ) → ltb d longest ≡ false → longest ≤ d
not-short d h = ground arith

min-double : (rounds d : ℕ) → min (double rounds d) longest ≡ min (d * 2 ^ rounds) longest
unfolding double
min-double zero d = ap (λ a. min a longest) (times_one d)
min-double (suc rounds) d = elim (Bool-cases (ltb d longest)) [
  | inl short ↦ rw short (min-double rounds (d * 2) ∙ ap (λ a. min a longest) (times_pow d rounds))
  | inr long ↦
      rw long (min_large d (d * 2 ^ suc rounds) longest (not-short d long) (grows d (suc rounds)))
]

pred_suc : (n : ℕ) → n + 1 - 1 ≡ n
pred_suc n = omega arith

-- The backoff doubles from ten seconds with each retry, up to five minutes.
pub failure_backoff_doubles :
    (retry_count : ℕ)
    → retry_count + 1 < 2 ^ 31
    → failure_backoff (retry_count + 1) ≡ min (10 * 2 ^ retry_count) longest
unfolding failure_backoff rounds_of
failure_backoff_doubles retry_count small =
    rw (lt→ltb (retry_count + 1) (2 ^ 31) small, pred_suc retry_count) (min-double retry_count 10)

-- Whatever the count, a negative one included, the backoff is at least ten seconds and at most five
-- minutes.
pub failure_backoff_bounds :
    (retry_count : ℕ) → (10 ≤ failure_backoff retry_count) × (failure_backoff retry_count ≤ longest)
unfolding failure_backoff
failure_backoff_bounds retry_count =
    let d = double (rounds_of retry_count) 10 in
    ground (arith, double_grows (rounds_of retry_count) 10)
