-- ===== src/Supervisor/Shell.antt =====
-- cmd/supervisor/shell.go: which shell a session starts, and the scripts for its profile.
pub mod Laws
use devpods.Prelude.{
  ℕ, zero, suc, ◌+◌, ◌-◌, ◌*◌, ◌/◌, ◌%◌, ◌^◌, ◌≤◌, ◌<◌, ◌≡◌, refl, sym, ap, ◌∙◌, subst, ◌≢◌, ◌↔◌,
  ◌⊎◌, inl, inr, Bool, true, false, not, ◌&&◌, ◌||◌, Option, none, some, List, [], ◌∷◌, ◌++◌, map,
  append_assoc, append-nil, arith, ltb, leb, ◌==◌, if◌then◌else◌, ltb→lt, lt→ltb, leb→le, le→leb,
  ==_iff, tests, Bool-cases, Option-cases, and-true, is_none, some-injective, Outcome, refused,
  passed, ◌>>=◌, or_refuse, refuse_if, passed-injective, refused-ne-passed, Outcome-cases,
  >>=-passed, or_refuse-passed, refuse_if-passed, guarded, length, length-append, List-cases, all,
  All, All-append, Text, bytes, text_eq, text_eq_refl, text_eq_iff, Text-cases, text_neq-sym,
  is_empty, has_prefix, contains, itoa, digits, Dict, lookup, insert, remove, lookup-insert,
  lookup-remove,
}
use devpods.Supervisor.Passwd.{root_shell_from_passwd}

abbrev pub allowed_shells : Dict Text
allowed_shells =
    (bytes "bash", bytes "/opt/devpod/bin/bash")
    ∷ (bytes "zsh", bytes "/opt/devpod/bin/zsh")
    ∷ (bytes "fish", bytes "/opt/devpod/bin/fish")
    ∷ []

abbrev pub nologin_shells : List Text
nologin_shells =
    bytes "/sbin/nologin"
    ∷ bytes "/usr/sbin/nologin"
    ∷ bytes "/bin/false"
    ∷ bytes "/usr/bin/false"
    ∷ []

unfoldable pub is_listed : List Text → Text → Bool
is_listed [] t = false
is_listed (s ∷ ss) t = text_eq s t || is_listed ss t

abbrev pub bundled_bash : Text × Text
bundled_bash = (bytes "bash", bytes "/opt/devpod/bin/bash")

-- fi.Mode()&0o111 != 0
unfoldable pub is_executable : ℕ → Bool
is_executable mode = (mode % 2 == 1) || ((mode / 8 % 2 == 1) || (mode / 64 % 2 == 1))

-- The shell of /etc/passwd, if it is one to log in with; `stat` gives the mode of a file.
unfoldable pub usable_shell : (Text → Outcome Text ℕ) → Text → Bool
unfolding is_listed is_executable
usable_shell stat shell =
    not (is_empty shell)
    && not (is_listed nologin_shells shell)
    && (elim (stat shell) [ refused err ↦ false | passed mode ↦ is_executable mode ])

unfoldable pub resolve_wanted : Text → Text × Text
resolve_wanted want = elim (lookup want allowed_shells) [
  | some path ↦ (want, path)
  | none ↦ bundled_bash
]

unfoldable pub resolve_passwd : (Text → Outcome Text ℕ) → Outcome Text Text → Text × Text
unfolding usable_shell root_shell_from_passwd
resolve_passwd stat (refused err) = bundled_bash
resolve_passwd stat (passed text) =
    let shell = root_shell_from_passwd text in
    if usable_shell stat shell then (shell, []) else bundled_bash

-- `want` is the variable DEVPOD_SHELL, and the reader of passwd is there, as in production.
unfoldable pub resolve_shell : Text → Outcome Text Text → (Text → Outcome Text ℕ) → Text × Text
unfolding resolve_wanted resolve_passwd
resolve_shell want passwd stat =
    if not (is_empty want) then resolve_wanted want else resolve_passwd stat passwd

pub record ProfileEntry : Type 0 where
  pub dir : Text
  pub file : Text
  pub body : Text

abbrev pub earlier : Option Text → Option Text → Option Text
earlier (some e) later = some e
earlier none later = later

-- The loop of installProfileScripts: the first error, and the files that were written.
unfoldable pub install_entries :
    (Text → Option Text)
    → (Text → Text → Option Text)
    → List ProfileEntry
    → Option Text × List (Text × Text)
install_entries mkdir_all write_file [] = (none, [])
install_entries mkdir_all write_file (e ∷ es) =
    let (err, files) = install_entries mkdir_all write_file es in
    let path = e.dir ++ b'/' ∷ e.file in
    elim (mkdir_all e.dir) [
      | some failed ↦ (some failed, files)
      | none ↦ elim (write_file path e.body) [
        | some failed ↦ (some failed, files)
        | none ↦ (err, (path, e.body) ∷ files)
      ]
    ]

-- The bodies of the two scripts are arguments.
unfoldable pub install_profile_scripts :
    Text
    → Text
    → (Text → Option Text)
    → (Text → Text → Option Text)
    → Option Text × List (Text × Text)
unfolding install_entries
install_profile_scripts profile_sh profile_fish mkdir_all write_file =
    install_entries mkdir_all write_file (
      record { dir = bytes "/etc/profile.d"; file = bytes "devpod.sh"; body = profile_sh }
      ∷ record { dir = bytes "/etc/fish/conf.d"; file = bytes "devpod.fish"; body = profile_fish }
      ∷ [])
