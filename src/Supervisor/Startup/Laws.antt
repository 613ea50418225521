-- ===== src/Supervisor/Startup/Laws.antt =====
-- The shell that sshd finds for root after the start of the supervisor.
use devpods.Prelude.{
  ◌≡◌, refl, sym, ap, ◌∙◌, subst, ◌≢◌, inl, inr, Bool, true, false, Option, none, some, List, [],
  ◌∷◌, ◌==◌, Bool-cases, Option-cases, some-injective, Outcome, All, Text, bytes, text_eq, is_empty,
  Dict, lookup,
}
use devpods.Supervisor.Splitting.{split, lacks, lacks-HasNo}
use devpods.Supervisor.Passwd.{
  newline, root_shell_from_passwd, rewrite_root_passwd, rewritten, patch_passwd_root_shell,
  text_or_nothing,
}
use devpods.Supervisor.Passwd.Laws.{IsWellFormed, rewrite_root_passwd-shell}
use devpods.Supervisor.Shell.{allowed_shells}
use devpods.Supervisor.Shell.Laws.{resolve_shell-IsDecided}
use devpods.Supervisor.Startup.{Surroundings, decision, written_passwd}

-- What a map holds at a key has what all its values have.
lookup-All :
    (P : Text → Type 0) (m : Dict Text) (k : Text) {v : Text}
    → All (λ kv. P kv.1) m
    → lookup k m ≡ some v
    → P v
unfolding lookup
lookup-All P [] k h e = cc
lookup-All P ((j, w) ∷ m) k (h, hs) e = elim (Bool-cases (text_eq j k)) [
  | inl same ↦ subst P (some-injective (rw same at e)) h
  | inr other ↦ lookup-All P m k hs (rw other at e)
]

bundled-lacks :
    (k path : Text)
    → lookup k allowed_shells ≡ some path
    → (lacks b':' path ≡ true) × (lacks newline path ≡ true)
bundled-lacks k path h =
    lookup-All (λ p. (lacks b':' p ≡ true) × (lacks newline p ≡ true)) allowed_shells k
      ((refl, refl), ((refl, refl), ((refl, refl), tt))) h

abbrev or_kept : Text → Option Text → Text
or_kept old none = old
or_kept old (some text) = text

-- What /etc/passwd holds after a write that succeeds, or without one.
abbrev final_passwd : Surroundings → Text
final_passwd w = or_kept (text_or_nothing w.passwd) (written_passwd w)

rewritten_old :
    (want_shell want_home old : Text) (o : Option (List Text × Bool))
    → (rewritten want_shell want_home old o).1 ≡ false
    → (rewritten want_shell want_home old o).0 ≡ old
rewritten_old want_shell want_home old none h = cc
rewritten_old want_shell want_home old (some (lines, true)) h = cc
rewritten_old want_shell want_home old (some (lines, false)) h = refl

-- Whether it is written or not, the file is as the rewriting gives it.
patched_text :
    (want_shell want_home : Text) (read : Outcome Text Text)
    → is_empty want_shell ≡ false
    → or_kept (text_or_nothing read) (patch_passwd_root_shell want_shell want_home read)
      ≡ (rewrite_root_passwd (text_or_nothing read) want_shell want_home).0
unfolding patch_passwd_root_shell rewrite_root_passwd
patched_text want_shell want_home read wanted =
    let out = rewrite_root_passwd (text_or_nothing read) want_shell want_home in
    elim (Bool-cases out.1) [
      | inl e ↦ rw (patch_passwd_root_shell, wanted, e) refl
      | inr e ↦
          rw (patch_passwd_root_shell, wanted, e)
            (sym (rewritten_old want_shell want_home (text_or_nothing read) _ e))
    ]

true-ne-false : true ≢ false
true-ne-false h = cc

written_first :
    (w : Surroundings)
    → (w.pid == 1) ≡ true
    → final_passwd w
      ≡ or_kept
          (text_or_nothing w.passwd)
          (patch_passwd_root_shell (decision w).1 (w.getenv (bytes "HOME")) w.passwd)
unfolding written_passwd
written_first w first = rw first refl

-- What /etc/passwd may hold when sshd starts: what was written to it, if something was and the write
-- succeeded, and else what it held before. A write that fails is logged and passed over; the file is then
-- not of this kind.
abbrev pub IsLeftBy : Surroundings → Text → Type 0
IsLeftBy w file =
    ((text : Text) → written_passwd w ≡ some text → file ≡ text)
    × (written_passwd w ≡ none → file ≡ text_or_nothing w.passwd)

left_final : (w : Surroundings) (file : Text) → IsLeftBy w file → file ≡ final_passwd w
left_final w file (wrote, kept) = elim (Option-cases (written_passwd w)) [
  | inl e ↦ rw e (kept e)
  | inr (text, e) ↦ rw e (wrote text e)
]

-- When the supervisor runs as the first process and forces a shell, sshd then finds that shell for
-- root in /etc/passwd, whatever the file held and also if it could not be read; when the write of the file,
-- if there is one, succeeds, the lines of root in it are well formed, and the home has no colon and no line
-- break.
pub final_passwd-forced :
    (w : Surroundings) (file : Text)
    → IsLeftBy w file
    → (w.pid == 1) ≡ true
    → is_empty (decision w).1 ≡ false
    → lacks b':' (w.getenv (bytes "HOME")) ≡ true
    → lacks newline (w.getenv (bytes "HOME")) ≡ true
    → All IsWellFormed (split newline (text_or_nothing w.passwd))
    → root_shell_from_passwd file ≡ (decision w).1
final_passwd-forced w file left first forced colon line formed =
    let want = (decision w).1 in
    let home = w.getenv (bytes "HOME") in
    elim (resolve_shell-IsDecided (w.getenv (bytes "DEVPOD_SHELL")) w.passwd w.stat) [
      | inl (unforced, _) ↦ absurd (true-ne-false (sym (ap is_empty unforced) ∙ forced))
      | inr bundled ↦
          let (colons, lines) = bundled-lacks (decision w).0 want bundled in
          ap root_shell_from_passwd (
            left_final w file left ∙ written_first w first ∙ patched_text want home w.passwd forced)
          ∙ rewrite_root_passwd-shell want home forced (lacks-HasNo b':' want colons)
              (lacks-HasNo b':' home colon) (lacks-HasNo newline want lines)
              (lacks-HasNo newline home line) (text_or_nothing w.passwd) formed
    ]
