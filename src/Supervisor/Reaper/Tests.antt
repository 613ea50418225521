-- ===== src/Supervisor/Reaper/Tests.antt =====
-- Runs of the loop, and instances of the theorems.
use devpods.Prelude.{ℕ, ◌≡◌, refl, true, false, none, some, List, [], ◌∷◌, ◌++◌, text_eq}
use devpods.Supervisor.Reaper.{
  Event, exited, signaled, reaped, interrupted, wait_for_children, wait_status_to_exit,
}
use devpods.Supervisor.Reaper.Laws.{ended, wait_for_children_returns}
use devpods.Supervisor.Reaper.Following.{sshd, wait_for_children-follows_sshd}
use devpods.Supervisor.Reaper.Shutdown.{user, wait_for_children-prefers_user}

-- The user's command ends, then an orphan, then sshd by a signal.
abbrev calm : List Event
calm = (reaped 8 (exited 3), false) ∷ (interrupted, false) ∷ (reaped 99 (exited 0), false) ∷ []

wait_for_children_returns_example :
    (code : ℕ) × (wait_for_children false (sshd 7 none ∷ user 8 ∷ []) none (ended calm false)
      ≡ some code)
wait_for_children_returns_example =
    wait_for_children_returns false (sshd 7 none ∷ user 8 ∷ []) none calm false

wait_for_children-follows_sshd_example :
    wait_for_children false
      (sshd 7 none ∷ user 8 ∷ [])
      none
      (calm ++ (reaped 7 (signaled 9), false) ∷ ended [] false)
    ≡ some 137
unfolding text_eq wait_status_to_exit
wait_for_children-follows_sshd_example =
    wait_for_children-follows_sshd 7 (user 8 ∷ []) none calm [] (signaled 9) false (refl, tt)
      ((refl, refl), (tt, ((refl, refl), tt)))

wait_for_children-prefers_user_example :
    wait_for_children false
      (sshd 7 none ∷ user 8 ∷ [])
      none
      ((reaped 7 (exited 0), true) ∷ (reaped 8 (exited 4), true) ∷ [])
    ≡ some 4
unfolding wait_status_to_exit
wait_for_children-prefers_user_example =
    wait_for_children-prefers_user false 7 8 none none ((reaped 7 (exited 0), true) ∷ []) []
      (exited 4) refl ((refl, refl), tt)
