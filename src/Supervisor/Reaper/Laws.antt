-- ===== src/Supervisor/Reaper/Laws.antt =====
-- When the supervisor ends, and with which code.
use devpods.Prelude.{
  ℕ, ◌≡◌, refl, ◌∙◌, ◌⊎◌, inl, inr, Bool, true, false, ◌||◌, Option, none, some, List, [], ◌∷◌,
  ◌++◌, Option-cases, Text,
}
use devpods.Supervisor.Reaper.{
  WaitStatus, reaped, interrupted, no_child, wait_failed, Event, Child, record_exit,
  wait_status_to_exit, all_tracked_reaped, drain_reaps_blocking, decide, go_on, return_now,
  return_drained, Verdict, first_code, wait_for_children,
}

-- Events after which no process is left.
abbrev pub ended : List Event → Bool → List Event
ended es b = es ++ (no_child, b) ∷ []

or_true : (b : Bool) → (b || true) ≡ true
or_true true = refl
or_true false = refl

pub drain_returns :
    (children : List Child) (es : List Event) (b : Bool)
    → drain_reaps_blocking children (ended es b) ≡ true
unfolding drain_reaps_blocking
drain_returns children [] b = refl
drain_returns children ((interrupted, a) ∷ es) b =
    rw (drain_returns children es b) (or_true (all_tracked_reaped children))
drain_returns children ((reaped pid ws, a) ∷ es) b =
    rw (drain_returns (record_exit pid (wait_status_to_exit ws) children).1 es b)
      (or_true (all_tracked_reaped children))
drain_returns children ((no_child, a) ∷ es) b = refl
drain_returns children ((wait_failed, a) ∷ es) b = refl

Verdict-cases :
    (v : Verdict)
    → (v ≡ go_on) ⊎ (((n : ℕ) × (v ≡ return_now n)) ⊎ ((n : ℕ) × (v ≡ return_drained n)))
Verdict-cases go_on = inl refl
Verdict-cases (return_now n) = inr (inl (n, refl))
Verdict-cases (return_drained n) = inr (inr (n, refl))

-- One round of the loop, by what was reaped and what is decided.
module _ (x : Bool) (children : List Child) (first : Option ℕ) (pid : ℕ) (ws : WaitStatus)
    (a : Bool) (es : List Event) where
  abbrev pub code_of : ℕ
  code_of = wait_status_to_exit ws

  abbrev pub recorded : List Child
  recorded = (record_exit pid code_of children).1

  abbrev pub round : Option ℕ
  round = wait_for_children x children first ((reaped pid ws, a) ∷ es)

  abbrev pub decided : Text → Verdict
  decided name = decide x a name code_of (first_code first code_of) recorded

  pub round_orphan :
      (record_exit pid code_of children).0 ≡ none → round ≡ wait_for_children x children first es
  unfolding wait_for_children
  round_orphan e = rw (wait_for_children, e) refl

  pub round_on :
      (name : Text)
      → (record_exit pid code_of children).0 ≡ some name
      → decided name ≡ go_on
      → round ≡ wait_for_children x recorded (some (first_code first code_of)) es
  unfolding wait_for_children
  round_on name e k = rw (wait_for_children, e, k) refl

  pub round_now :
      (name : Text) (n : ℕ)
      → (record_exit pid code_of children).0 ≡ some name
      → decided name ≡ return_now n
      → round ≡ some n
  unfolding wait_for_children
  round_now name n e k = rw (wait_for_children, e, k) refl

  pub round_drained :
      (name : Text) (n : ℕ)
      → (record_exit pid code_of children).0 ≡ some name
      → decided name ≡ return_drained n
      → drain_reaps_blocking recorded es ≡ true
      → round ≡ some n
  unfolding wait_for_children
  round_drained name n e k d = rw (wait_for_children, e, k, d) refl

-- The supervisor does not outlive its children: whatever it sees, in which order and in whichever
-- mode, it has returned a code when the kernel reports that no process is left.
pub wait_for_children_returns :
    (exit_on_user_cmd : Bool) (children : List Child) (first : Option ℕ) (es : List Event)
    (b : Bool)
    → (code : ℕ) × (wait_for_children exit_on_user_cmd children first (ended es b) ≡ some code)
unfolding wait_for_children
wait_for_children_returns x children first [] b = (first_code first 0, refl)
wait_for_children_returns x children first ((interrupted, a) ∷ es) b =
    wait_for_children_returns x children first es b
wait_for_children_returns x children first ((no_child, a) ∷ es) b = (first_code first 0, refl)
wait_for_children_returns x children first ((wait_failed, a) ∷ es) b = (1, refl)
wait_for_children_returns x children first ((reaped pid ws, a) ∷ es) b =
    let later = ended es b in
    let code = wait_status_to_exit ws in
    let now = first_code first code in
    let children' = (record_exit pid code children).1 in
    elim (Option-cases (record_exit pid code children).0) [
      | inl e ↦
          let (n, k) = wait_for_children_returns x children first es b in
          (n, round_orphan x children first pid ws a later e ∙ k)
      | inr (name, e) ↦ elim (Verdict-cases (decide x a name code now children')) [
        | inl k ↦
            let (n, j) = wait_for_children_returns x children' (some now) es b in
            (n, round_on x children first pid ws a later name e k ∙ j)
        | inr (inl (n, k)) ↦ (n, round_now x children first pid ws a later name n e k)
        | inr (inr (n, k)) ↦ (
          n,
          round_drained x children first pid ws a later name n e k (drain_returns children' es b),
        )
      ]
    ]
