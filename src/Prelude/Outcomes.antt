-- ===== src/Prelude/Outcomes.antt =====
-- A value, or the reason why there is none: Go's pair of a value and an error.
use mathlib.Core.Path.{◌≡◌, refl}
use mathlib.Core.Logic.{◌≢◌, ◌⊎◌, inl, inr}
use mathlib.Core.Bool.{Bool, true, false}
use mathlib.Core.Option.{Option, none, some}

pub data Outcome {ℓ} (E : Type 0) (A : Type ℓ) : Type ℓ where
  refused : E → Outcome E A
  passed : A → Outcome E A

module _ {E : Type 0} where
  infixl 5 ◌>>=◌
  abbrev pub ◌>>=◌ {ℓ κ} : {A : Type ℓ} {B : Type κ} → Outcome E A → (A → Outcome E B) → Outcome E B
  r >>= next = elim r [ refused e ↦ refused e | passed a ↦ next a ]

  abbrev pub or_refuse {ℓ} : {A : Type ℓ} → Option A → E → Outcome E A
  or_refuse o e = elim o [ none ↦ refused e | some a ↦ passed a ]

  -- Goes on when the test fails.
  abbrev pub refuse_if : Bool → E → Outcome E (Unit {0})
  refuse_if b e = elim b [ true ↦ refused e | false ↦ passed tt ]

  pub passed-injective {ℓ} :
      {A : Type ℓ} {a b : A} → ◌≡◌ {A = Outcome E A} (passed a) (passed b) → a ≡ b
  passed-injective h = cc

  pub refused-ne-passed {ℓ} :
      {A : Type ℓ} {e : E} {a : A} → ◌≢◌ {A = Outcome E A} (refused e) (passed a)
  refused-ne-passed h = cc

  pub Outcome-cases {ℓ} :
      {A : Type ℓ} (r : Outcome E A) → ((a : A) × (r ≡ passed a)) ⊎ ((e : E) × (r ≡ refused e))
  Outcome-cases (passed a) = inl (a, refl)
  Outcome-cases (refused e) = inr (e, refl)

  -- A chain that passes has passed each step.
  pub >>=-passed {ℓ κ} :
      {A : Type ℓ} {B : Type κ} (r : Outcome E A) (next : A → Outcome E B) {b : B}
      → (r >>= next) ≡ passed b
      → (a : A) × (r ≡ passed a) × (next a ≡ passed b)
  >>=-passed (passed a) next h = (a, refl, h)
  >>=-passed (refused e) next h = cc

  pub or_refuse-passed {ℓ} :
      {A : Type ℓ} (o : Option A) (e : E) {a : A} → or_refuse o e ≡ passed a → o ≡ some a
  or_refuse-passed none e h = cc
  or_refuse-passed (some a) e h = cc

  pub refuse_if-passed : (b : Bool) (e : E) → refuse_if b e ≡ passed tt → b ≡ false
  refuse_if-passed true e h = cc
  refuse_if-passed false e h = refl

  -- A guard that is passed leaves the rest.
  pub guarded {ℓ} :
      {A : Type ℓ} (b : Bool) (e : E) (next : Unit → Outcome E A) {a : A}
      → (refuse_if b e >>= next) ≡ passed a
      → (b ≡ false) × (next tt ≡ passed a)
  guarded true e next h = cc
  guarded false e next h = (refl, h)
