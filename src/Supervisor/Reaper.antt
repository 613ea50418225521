-- ===== src/Supervisor/Reaper.antt =====
-- cmd/supervisor/main.go: waitForChildren and its helpers. What wait4 returns, and whether the
-- supervisor is shutting down when it does, is a list of events; a started child has a process. The
-- signals that are sent to the other children only show in the events that follow.
pub mod Laws
pub mod Following
pub mod Shutdown
mod Tests
use devpods.Prelude.{
  ℕ, zero, suc, ◌+◌, ◌-◌, ◌*◌, ◌/◌, ◌%◌, ◌^◌, ◌≤◌, ◌<◌, ◌≡◌, refl, sym, ap, ◌∙◌, subst, ◌≢◌, ◌↔◌,
  ◌⊎◌, inl, inr, Bool, true, false, not, ◌&&◌, ◌||◌, Option, none, some, List, [], ◌∷◌, ◌++◌, map,
  append_assoc, append-nil, arith, ltb, leb, ◌==◌, if◌then◌else◌, ltb→lt, lt→ltb, leb→le, le→leb,
  ==_iff, tests, Bool-cases, Option-cases, and-true, is_none, some-injective, Outcome, refused,
  passed, ◌>>=◌, or_refuse, refuse_if, passed-injective, refused-ne-passed, Outcome-cases,
  >>=-passed, or_refuse-passed, refuse_if-passed, guarded, length, length-append, List-cases, all,
  All, All-append, Text, bytes, text_eq, text_eq_refl, text_eq_iff, Text-cases, text_neq-sym,
  is_empty, has_prefix, contains, itoa, digits, Dict, lookup, insert, remove, lookup-insert,
  lookup-remove,
}

pub data WaitStatus : Type 0 where
  exited signaled : ℕ → WaitStatus
  not_ended : WaitStatus

pub data WaitResult : Type 0 where
  reaped : (pid : ℕ) → WaitStatus → WaitResult
  interrupted no_child wait_failed : WaitResult

abbrev pub Event : Type 0
Event = WaitResult × Bool

pub record Child : Type 0 where
  pub name : Text
  pub pid : ℕ
  pub exit : Option ℕ

unfoldable pub wait_status_to_exit : WaitStatus → ℕ
wait_status_to_exit (exited code) = code
wait_status_to_exit (signaled signal) = 128 + signal
wait_status_to_exit not_ended = 1

abbrev pub sshd_name : Text
sshd_name = bytes "sshd"

abbrev pub user_name : Text
user_name = bytes "user"

-- The first loop over the children: the name of the one that was reaped, and the children with its
-- code.
unfoldable pub record_exit : ℕ → ℕ → List Child → Option Text × List Child
record_exit pid code [] = (none, [])
record_exit pid code (c ∷ cs) =
    let (hit, cs') = record_exit pid code cs in
    if is_none c.exit && (c.pid == pid)
    then (some c.name, record c { exit = some code } ∷ cs)
    else (hit, c ∷ cs')

unfoldable pub user_reaped : List Child → Bool
user_reaped [] = false
user_reaped (c ∷ cs) =
    let rest = user_reaped cs in if text_eq c.name user_name then not (is_none c.exit) else rest

unfoldable pub all_tracked_reaped : List Child → Bool
all_tracked_reaped [] = true
all_tracked_reaped (c ∷ cs) = not (is_none c.exit) && all_tracked_reaped cs

abbrev pub or_later : Option ℕ → ℕ → ℕ
or_later none later = later
or_later (some code) later = code

unfoldable pub user_exit_or : List Child → ℕ → ℕ
user_exit_or [] fallback = fallback
user_exit_or (c ∷ cs) fallback =
    let rest = user_exit_or cs fallback in
    if text_eq c.name user_name then or_later c.exit rest else rest

-- drainReapsBlocking: whether it returns on the events.
unfoldable pub drain_reaps_blocking : List Child → List Event → Bool
unfolding all_tracked_reaped record_exit wait_status_to_exit
drain_reaps_blocking children [] = all_tracked_reaped children
drain_reaps_blocking children ((interrupted, _) ∷ es) =
    let rest = drain_reaps_blocking children es in all_tracked_reaped children || rest
drain_reaps_blocking children ((reaped pid ws, _) ∷ es) =
    let rest = drain_reaps_blocking (record_exit pid (wait_status_to_exit ws) children).1 es in
    all_tracked_reaped children || rest
drain_reaps_blocking children ((no_child, _) ∷ es) = true
drain_reaps_blocking children ((wait_failed, _) ∷ es) = true

-- What the loop does with a child that was reaped, behind the recording of its code.
pub data Verdict : Type 0 where
  go_on : Verdict
  return_now return_drained : ℕ → Verdict

unfoldable pub decide : Bool → Bool → Text → ℕ → ℕ → List Child → Verdict
unfolding user_reaped all_tracked_reaped user_exit_or
decide exit_on_user_cmd shutting_down name code first children =
    if shutting_down
    then (if user_reaped children || all_tracked_reaped children
        then return_now (user_exit_or children first)
        else go_on)
    else (if text_eq name sshd_name
        then return_drained code
        else (if text_eq name user_name && exit_on_user_cmd then return_drained code else go_on))

abbrev pub first_code : Option ℕ → ℕ → ℕ
first_code none code = code
first_code (some first) code = first

-- The loop: the code that it returns, or nothing as long as it waits.
unfoldable pub wait_for_children : Bool → List Child → Option ℕ → List Event → Option ℕ
unfolding record_exit decide drain_reaps_blocking wait_status_to_exit
wait_for_children exit_on_user_cmd children first [] = none
wait_for_children exit_on_user_cmd children first ((interrupted, _) ∷ es) =
    wait_for_children exit_on_user_cmd children first es
wait_for_children exit_on_user_cmd children first ((no_child, _) ∷ es) = some (first_code first 0)
wait_for_children exit_on_user_cmd children first ((wait_failed, _) ∷ es) = some 1
wait_for_children exit_on_user_cmd children first ((reaped pid ws, shutting_down) ∷ es) =
    let code = wait_status_to_exit ws in
    let (hit, children') = record_exit pid code children in
    let now = first_code first code in
    let orphan = wait_for_children exit_on_user_cmd children first es in
    let rest = wait_for_children exit_on_user_cmd children' (some now) es in
    elim hit [
      | none ↦ orphan
      | some name ↦ elim (decide exit_on_user_cmd shutting_down name code now children') [
        | go_on ↦ rest
        | return_now result ↦ some result
        | return_drained result ↦ if drain_reaps_blocking children' es then some result else none
      ]
    ]
