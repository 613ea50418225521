-- ===== src/Supervisor/Reaper/Shutdown.antt =====
-- The supervisor in a shutdown: it follows the user's command.
use devpods.Prelude.{
  ℕ, ◌≡◌, refl, sym, ap, ◌∙◌, subst, ◌⊎◌, inl, inr, Bool, true, false, Option, none, some, List, [],
  ◌∷◌, ◌++◌, ◌==◌, Bool-cases, All, text_eq,
}
use devpods.Supervisor.Reaper.{
  WaitStatus, reaped, interrupted, no_child, wait_failed, Event, Child, record_exit,
  wait_status_to_exit, sshd_name, user_name, decide, go_on, return_now, first_code,
  wait_for_children,
}
use devpods.Supervisor.Reaper.Laws.{round_orphan, round_on, round_now}
use devpods.Supervisor.Reaper.Following.{sshd, same_pid}

-- In a shutdown, an event that is not the end of the process `pid`, nor an error.
abbrev pub SparesUser : ℕ → Event → Type 0
SparesUser pid (interrupted, b) = Unit {0}
SparesUser pid (reaped q ws, b) = (b ≡ true) × ((pid == q) ≡ false)
SparesUser pid (no_child, b) = ⊥
SparesUser pid (wait_failed, b) = ⊥

abbrev pub user : ℕ → Child
user pid = record { name = user_name; pid = pid; exit = none }

-- sshd and the user's command, when another process ends: sshd, or an orphan.
record_exit-pair :
    (p u q code : ℕ) (exit : Option ℕ)
    → (u == q) ≡ false
    → ((record_exit q code (sshd p exit ∷ user u ∷ [])).0 ≡ none)
      ⊎ ((exit' : Option ℕ) × (record_exit q code (sshd p exit ∷ user u ∷ [])
            ≡ (some sshd_name, sshd p exit' ∷ user u ∷ [])))
unfolding record_exit
record_exit-pair p u q code (some e) h = inl (rw h refl)
record_exit-pair p u q code none h = elim (Bool-cases (p == q)) [
  | inl k ↦ inr (some code, rw k refl)
  | inr k ↦ inl (rw (k, h) refl)
]

record_exit-user :
    (p u code : ℕ) (exit : Option ℕ)
    → (p == u) ≡ false
    → record_exit u code (sshd p exit ∷ user u ∷ [])
      ≡ (some user_name, sshd p exit ∷ record (user u) { exit = some code } ∷ [])
unfolding record_exit
record_exit-user p u code (some e) h = rw (same_pid u) refl
record_exit-user p u code none h = rw (h, same_pid u) refl

decide_user :
    (x : Bool) (p u code first : ℕ) (exit : Option ℕ)
    → decide x true user_name code first (sshd p exit ∷ record (user u) { exit = some code } ∷ [])
      ≡ return_now code
unfolding decide text_eq
decide_user x p u code first exit = refl

decide_waits :
    (x : Bool) (p u code first : ℕ) (exit : Option ℕ)
    → decide x true sshd_name code first (sshd p exit ∷ user u ∷ []) ≡ go_on
unfolding decide text_eq
decide_waits x p u code first none = refl
decide_waits x p u code first (some e) = refl

-- In a shutdown the code of the user's command is preferred: whatever else ends before it, sshd
-- included, the supervisor waits for the user's command, and returns its code.
pub wait_for_children-prefers_user :
    (x : Bool) (p u : ℕ) (exit first : Option ℕ) (es rest : List Event) (ws : WaitStatus)
    → (p == u) ≡ false
    → All (SparesUser u) es
    → wait_for_children x (sshd p exit ∷ user u ∷ []) first (es ++ (reaped u ws, true) ∷ rest)
      ≡ some (wait_status_to_exit ws)
unfolding wait_for_children
wait_for_children-prefers_user x p u exit first [] rest ws apart spared =
    let code = wait_status_to_exit ws in
    let children = sshd p exit ∷ user u ∷ [] in
    let hit = record_exit-user p u code exit apart in
    round_now x children first u ws true rest user_name code (ap (λ r. r.0) hit) (
      ap (λ r. decide x true user_name code (first_code first code) r.1) hit
      ∙ decide_user x p u code (first_code first code) exit)
wait_for_children-prefers_user x p u exit first ((interrupted, a) ∷ es) rest ws apart (_, spared) =
    wait_for_children-prefers_user x p u exit first es rest ws apart spared
wait_for_children-prefers_user x p u exit first ((reaped q st, a) ∷ es) rest ws apart
      ((down, other), spared) =
    let code = wait_status_to_exit st in
    let children = sshd p exit ∷ user u ∷ [] in
    let later = es ++ (reaped u ws, true) ∷ rest in
    subst
      (λ b.
        wait_for_children x children first ((reaped q st, b) ∷ later)
        ≡ some (wait_status_to_exit ws))
      (sym down)
      (elim (record_exit-pair p u q code exit other) [
        | inl e ↦
            round_orphan x children first q st true later e
            ∙ wait_for_children-prefers_user x p u exit first es rest ws apart spared
        | inr (exit', e) ↦
            round_on x children first q st true later sshd_name (ap (λ r. r.0) e) (
              ap (λ r. decide x true sshd_name code (first_code first code) r.1) e
              ∙ decide_waits x p u code (first_code first code) exit')
            ∙ ap (λ r. wait_for_children x r.1 (some (first_code first code)) later) e
            ∙ wait_for_children-prefers_user x p u exit' (some (first_code first code)) es rest ws
                apart spared
      ])
wait_for_children-prefers_user x p u exit first ((no_child, a) ∷ es) rest ws apart (h, _) = absurd h
wait_for_children-prefers_user x p u exit first ((wait_failed, a) ∷ es) rest ws apart (h, _) =
    absurd h
