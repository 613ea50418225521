-- ===== src/Supervisor/Shell/Laws.antt =====
-- Which shell is chosen.
use devpods.Prelude.{
  ℕ, ◌≡◌, refl, ◌⊎◌, inl, inr, true, some, [], Bool-cases, Option-cases, Outcome, refused, passed,
  Text, text_eq, is_empty, lookup,
}
use devpods.Supervisor.Passwd.{root_shell_from_passwd}
use devpods.Supervisor.Shell.{
  allowed_shells, bundled_bash, usable_shell, resolve_wanted, resolve_passwd, resolve_shell,
}

-- The chosen shell and the forced path: the shell that /etc/passwd gives to root, left alone because
-- it can be used, or a shell of the bundle, forced by its path.
abbrev IsDecided : Outcome Text Text → (Text → Outcome Text ℕ) → Text × Text → Type 0
IsDecided passwd stat choice =
    ((choice.1 ≡ [])
      × ((text : Text) × (passwd ≡ passed text)
          × (root_shell_from_passwd text ≡ choice.0)
          × (usable_shell stat choice.0 ≡ true)))
    ⊎ (lookup choice.0 allowed_shells ≡ some choice.1)

bundled-IsDecided :
    (passwd : Outcome Text Text) (stat : Text → Outcome Text ℕ) → IsDecided passwd stat bundled_bash
unfolding lookup text_eq
bundled-IsDecided passwd stat = inr refl

resolve_wanted-IsDecided :
    (want : Text) (passwd : Outcome Text Text) (stat : Text → Outcome Text ℕ)
    → IsDecided passwd stat (resolve_wanted want)
unfolding resolve_wanted
resolve_wanted-IsDecided want passwd stat = elim (Option-cases (lookup want allowed_shells)) [
  | inl e ↦ rw (resolve_wanted, e) (bundled-IsDecided passwd stat)
  | inr (path, e) ↦ rw (resolve_wanted, e) (inr e)
]

resolve_passwd-IsDecided :
    (passwd : Outcome Text Text) (stat : Text → Outcome Text ℕ)
    → IsDecided passwd stat (resolve_passwd stat passwd)
unfolding resolve_passwd
resolve_passwd-IsDecided (refused err) stat = bundled-IsDecided (refused err) stat
resolve_passwd-IsDecided (passed text) stat =
    elim (Bool-cases (usable_shell stat (root_shell_from_passwd text))) [
      | inl e ↦ rw e (inl (refl, (text, refl, refl, e)))
      | inr e ↦ rw e (bundled-IsDecided (passed text) stat)
    ]

-- Whatever DEVPOD_SHELL holds and however the reads end, the chosen shell can start: sshd is left to
-- root's shell in /etc/passwd only if that is set, is none of the shells that refuse a login, and is
-- an executable file; else a shell of the bundle is forced, by the path under its name.
pub resolve_shell-IsDecided :
    (want : Text) (passwd : Outcome Text Text) (stat : Text → Outcome Text ℕ)
    → IsDecided passwd stat (resolve_shell want passwd stat)
unfolding resolve_shell
resolve_shell-IsDecided want passwd stat = elim (Bool-cases (is_empty want)) [
  | inl e ↦ rw e (resolve_passwd-IsDecided passwd stat)
  | inr e ↦ rw e (resolve_wanted-IsDecided want passwd stat)
]
