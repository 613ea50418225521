-- ===== src/Supervisor/Splitting.antt =====
-- strings.Split and strings.Join of cmd/supervisor with a separator of one byte.
use devpods.Prelude.{
  ℕ, ◌≡◌, refl, ap, ◌∙◌, ◌≢◌, inl, inr, Bool, true, false, not, ◌&&◌, List, [], ◌∷◌, ◌++◌,
  append-nil, arith, ◌==◌, if◌then◌else◌, Bool-cases, All, All-append, Text,
}

-- A byte before the first of the parts.
abbrev pub push : ℕ → List Text → List Text
push c [] = (c ∷ []) ∷ []
push c (w ∷ ws) = (c ∷ w) ∷ ws

unfoldable pub split : ℕ → Text → List Text
split sep [] = [] ∷ []
split sep (c ∷ s) = let rest = split sep s in if c == sep then [] ∷ rest else push c rest

-- The parts behind the first one, each after a separator.
unfoldable pub join_rest : ℕ → List Text → Text
join_rest sep [] = []
join_rest sep (w ∷ ws) = sep ∷ (w ++ join_rest sep ws)

unfoldable pub join : ℕ → List Text → Text
unfolding join_rest
join sep [] = []
join sep (w ∷ ws) = w ++ join_rest sep ws

abbrev pub HasNo : ℕ → Text → Type 0
HasNo sep = All (λ c. (c == sep) ≡ false)

-- A text before the first of the parts.
abbrev pub prepend : Text → List Text → List Text
prepend w [] = w ∷ []
prepend w (v ∷ vs) = (w ++ v) ∷ vs

abbrev pub IsCons : List Text → Type 0
IsCons [] = ⊥
IsCons (_ ∷ _) = Unit {0}

pub push-IsCons : (c : ℕ) (ws : List Text) → IsCons (push c ws)
push-IsCons c [] = tt
push-IsCons c (w ∷ ws) = tt

split-IsCons : (sep : ℕ) (s : Text) → IsCons (split sep s)
unfolding split
split-IsCons sep [] = tt
split-IsCons sep (c ∷ s) = elim (Bool-cases (c == sep)) [
  | inl e ↦ rw e tt
  | inr e ↦ rw e (push-IsCons c (split sep s))
]

pub prepend-nil : (ws : List Text) → IsCons ws → ws ≡ prepend [] ws
prepend-nil [] h = absurd h
prepend-nil (w ∷ ws) h = refl

pub push-prepend : (c : ℕ) (w : Text) (ws : List Text) → push c (prepend w ws) ≡ prepend (c ∷ w) ws
push-prepend c w [] = refl
push-prepend c w (v ∷ vs) = refl

-- A text without the separator, before a separator and the rest or at the end.
split-part :
    (sep : ℕ) (w : Text) (ws : List Text)
    → HasNo sep w
    → split sep (w ++ join_rest sep ws) ≡ prepend w (split sep (join_rest sep ws))
unfolding split
split-part sep [] ws h = prepend-nil (split sep (join_rest sep ws)) (split-IsCons sep _)
split-part sep (c ∷ w) ws (k, h) =
    rw (k, split-part sep w ws h) (push-prepend c w (split sep (join_rest sep ws)))

pub same_byte : (n : ℕ) → (n == n) ≡ true
same_byte n = ground arith

-- Parts without the separator are read back.
pub split-join :
    (sep : ℕ) (w : Text) (ws : List Text)
    → All (HasNo sep) (w ∷ ws)
    → split sep (join sep (w ∷ ws)) ≡ w ∷ ws
unfolding join join_rest split
split-join sep w [] (h, _) = split-part sep w [] h ∙ ap (λ v. v ∷ []) (append-nil w)
split-join sep w (v ∷ vs) (h, hs) =
    split-part sep w (v ∷ vs) h ∙ rw (same_byte sep, split-join sep v vs hs, append-nil w) refl

-- The parts do not hold the separator, and hold nothing that the text does not hold.
push-All :
    (P : ℕ → Type 0) (c : ℕ) (ws : List Text) → P c → All (All P) ws → All (All P) (push c ws)
push-All P c [] h k = ((h, tt), tt)
push-All P c (w ∷ ws) h (k, ks) = ((h, k), ks)

pub split-HasNo : (sep : ℕ) (s : Text) → All (HasNo sep) (split sep s)
unfolding split
split-HasNo sep [] = (tt, tt)
split-HasNo sep (c ∷ s) = elim (Bool-cases (c == sep)) [
  | inl e ↦ rw e (tt, split-HasNo sep s)
  | inr e ↦ rw e (push-All (λ x. (x == sep) ≡ false) c (split sep s) e (split-HasNo sep s))
]

pub split-All : (P : ℕ → Type 0) (sep : ℕ) (s : Text) → All P s → All (All P) (split sep s)
unfolding split
split-All P sep [] h = (tt, tt)
split-All P sep (c ∷ s) (h, hs) = elim (Bool-cases (c == sep)) [
  | inl e ↦ rw e (tt, split-All P sep s hs)
  | inr e ↦ rw e (push-All P c (split sep s) h (split-All P sep s hs))
]

join_rest-All :
    (P : ℕ → Type 0) (sep : ℕ) (ws : List Text) → P sep → All (All P) ws → All P (join_rest sep ws)
unfolding join_rest
join_rest-All P sep [] h k = tt
join_rest-All P sep (w ∷ ws) h (k, ks) =
    (h, All-append P w (join_rest sep ws) k (join_rest-All P sep ws h ks))

pub join-All :
    (P : ℕ → Type 0) (sep : ℕ) (ws : List Text) → P sep → All (All P) ws → All P (join sep ws)
unfolding join
join-All P sep [] h k = tt
join-All P sep (w ∷ ws) h (k, ks) =
    All-append P w (join_rest sep ws) k (join_rest-All P sep ws h ks)

pub split-append : (sep : ℕ) (w s : Text) → HasNo sep w → split sep (w ++ sep ∷ s) ≡ w ∷ split sep s
unfolding split
split-append sep [] s h = rw (same_byte sep) refl
split-append sep (c ∷ w) s (k, h) = rw (k, split-append sep w s h) refl

false-ne-true : false ≢ true
false-ne-true h = cc

-- A test for the absence of the separator.
abbrev pub lacks : ℕ → Text → Bool
lacks sep [] = true
lacks sep (c ∷ s) = not (c == sep) && lacks sep s

pub lacks-HasNo : (sep : ℕ) (s : Text) → lacks sep s ≡ true → HasNo sep s
lacks-HasNo sep [] h = tt
lacks-HasNo sep (c ∷ s) h = elim (Bool-cases (c == sep)) [
  | inl e ↦ absurd (false-ne-true (rw e at h))
  | inr e ↦ (e, lacks-HasNo sep s (rw e at h))
]
