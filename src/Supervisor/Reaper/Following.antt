-- ===== src/Supervisor/Reaper/Following.antt =====
-- The supervisor outside a shutdown: it follows sshd.
use devpods.Prelude.{
  ℕ, ◌≡◌, refl, sym, ap, ◌∙◌, subst, inl, inr, Bool, true, false, ◌&&◌, Option, none, some, List,
  [], ◌∷◌, ◌++◌, arith, ◌==◌, Bool-cases, Option-cases, is_none, some-injective, All, Text, text_eq,
}
use devpods.Supervisor.Reaper.{
  WaitStatus, reaped, interrupted, no_child, wait_failed, Event, Child, record_exit,
  wait_status_to_exit, sshd_name, user_name, decide, go_on, return_drained, first_code,
  wait_for_children,
}
use devpods.Supervisor.Reaper.Laws.{ended, drain_returns, round_orphan, round_on, round_drained}

abbrev pub sshd : ℕ → Option ℕ → Child
sshd pid exit = record { name = sshd_name; pid = pid; exit = exit }

-- Outside a shutdown, an event that is not the end of the process `pid`, nor an error.
abbrev pub Spares : ℕ → Event → Type 0
Spares pid (interrupted, b) = Unit {0}
Spares pid (reaped q ws, b) = (b ≡ false) × ((pid == q) ≡ false)
Spares pid (no_child, b) = ⊥
Spares pid (wait_failed, b) = ⊥

abbrev pub IsOther : Child → Type 0
IsOther c = text_eq c.name sshd_name ≡ false

record_exit-IsOther :
    (pid code : ℕ) (us : List Child)
    → All IsOther us
    → All IsOther (record_exit pid code us).1
      × ((name : Text) → (record_exit pid code us).0 ≡ some name → text_eq name sshd_name ≡ false)
unfolding record_exit
record_exit-IsOther pid code [] h = (tt, λ name k. cc)
record_exit-IsOther pid code (c ∷ cs) (other, others) =
    let (keep, named) = record_exit-IsOther pid code cs others in
    elim (Bool-cases (is_none c.exit && (c.pid == pid))) [
      | inl e ↦ rw e (
        (other, others),
        λ name k. subst (λ n. text_eq n sshd_name ≡ false) (some-injective k) other,
      )
      | inr e ↦ rw e ((other, keep), named)
    ]

pub same_pid : (n : ℕ) → (n == n) ≡ true
same_pid n = ground arith

record_exit-own :
    (pid code : ℕ) (us : List Child)
    → record_exit pid code (sshd pid none ∷ us) ≡ (some sshd_name, sshd pid (some code) ∷ us)
unfolding record_exit
record_exit-own pid code us = rw (same_pid pid) refl

record_exit-past :
    (pid q code : ℕ) (us : List Child)
    → (pid == q) ≡ false
    → record_exit q code (sshd pid none ∷ us)
      ≡ ((record_exit q code us).0, sshd pid none ∷ (record_exit q code us).1)
unfolding record_exit
record_exit-past pid q code us h = rw h refl

and_false : (b : Bool) → (b && false) ≡ false
and_false true = refl
and_false false = refl

decide_other :
    (name : Text) (code first : ℕ) (children : List Child)
    → text_eq name sshd_name ≡ false
    → decide false false name code first children ≡ go_on
unfolding decide
decide_other name code first children h = rw (h, and_false (text_eq name user_name)) refl

decide_sshd :
    (code first : ℕ) (children : List Child)
    → decide false false sshd_name code first children ≡ return_drained code
unfolding decide text_eq
decide_sshd code first children = refl

-- An event that spares sshd leaves the loop waiting.
wait-spared :
    (pid q : ℕ) (us : List Child) (first : Option ℕ) (ws : WaitStatus) (es : List Event) (n : ℕ)
    → (pid == q) ≡ false
    → All IsOther us
    → ((us' : List Child) (first' : Option ℕ)
        → All IsOther us'
        → wait_for_children false (sshd pid none ∷ us') first' es ≡ some n)
    → wait_for_children false (sshd pid none ∷ us) first ((reaped q ws, false) ∷ es) ≡ some n
wait-spared pid q us first ws es n apart others next =
    let code = wait_status_to_exit ws in
    let past = record_exit-past pid q code us apart in
    let (keep, named) = record_exit-IsOther q code us others in
    let children = sshd pid none ∷ us in
    elim (Option-cases (record_exit q code us).0) [
      | inl e ↦
          round_orphan false children first q ws false es (ap (λ p. p.0) past ∙ e)
          ∙ next us first others
      | inr (name, e) ↦
          round_on false children first q ws false es name (ap (λ p. p.0) past ∙ e) (
            decide_other name code (first_code first code) (record_exit q code children).1
              (named name e))
          ∙ ap (λ p. wait_for_children false p.1 (some (first_code first code)) es) past
          ∙ next (record_exit q code us).1 (some (first_code first code)) keep
    ]

-- Outside a shutdown, as long as sshd lives, and users' commands do not end the container, the supervisor
-- waits, whatever other processes end; when sshd ends, still outside a shutdown, the supervisor returns
-- its code, once no process is left.
pub wait_for_children-follows_sshd :
    (pid : ℕ) (us : List Child) (first : Option ℕ) (es rest : List Event) (ws : WaitStatus)
    (b : Bool)
    → All IsOther us
    → All (Spares pid) es
    → wait_for_children false
        (sshd pid none ∷ us)
        first
        (es ++ (reaped pid ws, false) ∷ ended rest b)
      ≡ some (wait_status_to_exit ws)
unfolding wait_for_children
wait_for_children-follows_sshd pid us first [] rest ws b others spared =
    let code = wait_status_to_exit ws in
    let children = sshd pid none ∷ us in
    round_drained false children first pid ws false (ended rest b) sshd_name code
      (ap (λ p. p.0) (record_exit-own pid code us))
      (decide_sshd code (first_code first code) (record_exit pid code children).1)
      (drain_returns (record_exit pid code children).1 rest b)
wait_for_children-follows_sshd pid us first ((interrupted, a) ∷ es) rest ws b others (_, spared) =
    wait_for_children-follows_sshd pid us first es rest ws b others spared
wait_for_children-follows_sshd pid us first ((reaped q st, a) ∷ es) rest ws b others
      ((calm, apart), spared) =
    subst
      (λ x.
        wait_for_children false (sshd pid none ∷ us) first
          ((reaped q st, x) ∷ (es ++ (reaped pid ws, false) ∷ ended rest b))
        ≡ some (wait_status_to_exit ws))
      (sym calm)
      (wait-spared pid q us first st (es ++ (reaped pid ws, false) ∷ ended rest b)
        (wait_status_to_exit ws) apart others
        (λ us' first' others'.
          wait_for_children-follows_sshd pid us' first' es rest ws b others' spared))
wait_for_children-follows_sshd pid us first ((no_child, a) ∷ es) rest ws b others (h, _) = absurd h
wait_for_children-follows_sshd pid us first ((wait_failed, a) ∷ es) rest ws b others (h, _) =
    absurd h
