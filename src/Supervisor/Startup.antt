-- ===== src/Supervisor/Startup.antt =====
-- cmd/supervisor/main.go: what main makes of its environment before it starts sshd: the arguments of
-- sshd, and the text that it writes to /etc/passwd.
pub mod Laws
use devpods.Prelude.{
  ℕ, zero, suc, ◌+◌, ◌-◌, ◌*◌, ◌/◌, ◌%◌, ◌^◌, ◌≤◌, ◌<◌, ◌≡◌, refl, sym, ap, ◌∙◌, subst, ◌≢◌, ◌↔◌,
  ◌⊎◌, inl, inr, Bool, true, false, not, ◌&&◌, ◌||◌, Option, none, some, List, [], ◌∷◌, ◌++◌, map,
  append_assoc, append-nil, arith, ltb, leb, ◌==◌, if◌then◌else◌, ltb→lt, lt→ltb, leb→le, le→leb,
  ==_iff, tests, Bool-cases, Option-cases, and-true, is_none, some-injective, Outcome, refused,
  passed, ◌>>=◌, or_refuse, refuse_if, passed-injective, refused-ne-passed, Outcome-cases,
  >>=-passed, or_refuse-passed, refuse_if-passed, guarded, length, length-append, List-cases, all,
  All, All-append, Text, bytes, text_eq, text_eq_refl, text_eq_iff, Text-cases, text_neq-sym,
  is_empty, has_prefix, contains, itoa, digits, Dict, lookup, insert, remove, lookup-insert,
  lookup-remove,
}
use devpods.Supervisor.Splitting.{split}
use devpods.Supervisor.Passwd.{patch_passwd_root_shell}
use devpods.Supervisor.Shell.{resolve_shell}
use devpods.Supervisor.SetEnv.{container_env_for_set_env, shell_args_for_chosen}

unfoldable pub env_or : Text → Text → Text
env_or value def = if is_empty value then def else value

unfoldable pub split_semis : Text → List Text
unfolding split
split_semis s = if is_empty s then [] else split b';' s

abbrev pub default_sshd_args : Text
default_sshd_args = bytes "-D;-e;-f;/opt/devpod/etc/sshd_config"

-- The environment, by name, and the files that are read before sshd starts; `matches` is the glob for
-- the functions of zsh, and the second list the entries NAME=VALUE of the environment.
pub record Surroundings : Type 0 where
  pub getenv : Text → Text
  pub environ : List Text
  pub passwd : Outcome Text Text
  pub stat : Text → Outcome Text ℕ
  pub matches : Outcome Text (List Text)
  pub pid : ℕ

abbrev pub decision : Surroundings → Text × Text
decision w = resolve_shell (w.getenv (bytes "DEVPOD_SHELL")) w.passwd w.stat

unfoldable pub port_args : Text → List Text
port_args port = if is_empty port then [] else bytes "-p" ∷ port ∷ []

unfoldable pub sshd_args : Surroundings → List Text
unfolding env_or split_semis port_args
sshd_args w =
    split_semis (env_or (w.getenv (bytes "SUPERVISOR_SSHD_ARGS")) default_sshd_args)
    ++ (port_args (w.getenv (bytes "SUPERVISOR_SSHD_PORT"))
        ++ shell_args_for_chosen (decision w).0 (container_env_for_set_env w.environ) w.matches)

-- The text that is written to /etc/passwd, if one is: only as the first process.
unfoldable pub written_passwd : Surroundings → Option Text
written_passwd w =
    if w.pid == 1
    then patch_passwd_root_shell (decision w).1 (w.getenv (bytes "HOME")) w.passwd
    else none
