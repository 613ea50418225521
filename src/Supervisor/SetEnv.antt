-- ===== src/Supervisor/SetEnv.antt =====
-- cmd/supervisor/shell.go: the environment that sshd is told to set.
pub mod Words
pub mod Reading
use devpods.Prelude.{
  ℕ, zero, suc, ◌+◌, ◌-◌, ◌*◌, ◌/◌, ◌%◌, ◌^◌, ◌≤◌, ◌<◌, ◌≡◌, refl, sym, ap, ◌∙◌, subst, ◌≢◌, ◌↔◌,
  ◌⊎◌, inl, inr, Bool, true, false, not, ◌&&◌, ◌||◌, Option, none, some, List, [], ◌∷◌, ◌++◌, map,
  append_assoc, append-nil, arith, ltb, leb, ◌==◌, if◌then◌else◌, ltb→lt, lt→ltb, leb→le, le→leb,
  ==_iff, tests, Bool-cases, Option-cases, and-true, is_none, some-injective, Outcome, refused,
  passed, ◌>>=◌, or_refuse, refuse_if, passed-injective, refused-ne-passed, Outcome-cases,
  >>=-passed, or_refuse-passed, refuse_if-passed, guarded, length, length-append, List-cases, all,
  All, All-append, Text, bytes, text_eq, text_eq_refl, text_eq_iff, Text-cases, text_neq-sym,
  is_empty, has_prefix, contains, itoa, digits, Dict, lookup, insert, remove, lookup-insert,
  lookup-remove,
}
use devpods.Supervisor.Shell.{is_listed}

abbrev pub skip_env_exact : List Text
skip_env_exact =
    bytes "PATH"
    ∷ bytes "TERMINFO"
    ∷ bytes "TERMINFO_DIRS"
    ∷ bytes "FPATH"
    ∷ bytes "HOME"
    ∷ bytes "HOSTNAME"
    ∷ bytes "PWD"
    ∷ bytes "SHLVL"
    ∷ bytes "OLDPWD"
    ∷ bytes "_"
    ∷ bytes "TERM"
    ∷ []

-- strings.Cut at the first "=".
unfoldable pub cut_equals : Text → Option (Text × Text)
cut_equals [] = none
cut_equals (c ∷ s) =
    let rest = cut_equals s in
    if c == b'=' then some ([], s) else (elim rest [ none ↦ none | some (k, v) ↦ some (c ∷ k, v) ])

-- strings.ContainsAny with the bytes of the second text.
unfoldable pub any_byte : ℕ → Text → Bool
any_byte c [] = false
any_byte c (b ∷ bs) = (c == b) || any_byte c bs

unfoldable pub contains_any : Text → Text → Bool
unfolding any_byte
contains_any [] set = false
contains_any (c ∷ s) set = any_byte c set || contains_any s set

-- strings.ReplaceAll of one byte by that byte behind a backslash.
unfoldable pub replace_all : ℕ → Text → Text
replace_all b [] = []
replace_all b (c ∷ s) = let rest = replace_all b s in if c == b then b'\\' ∷ c ∷ rest else c ∷ rest

unfoldable pub quote_set_env_pair : Text → Text → Text
unfolding contains_any replace_all
quote_set_env_pair k v =
    if not (contains_any v (b' ' ∷ 9 ∷ b'"' ∷ b'\\' ∷ []))
    then k ++ b'=' ∷ v
    else k ++ (b'=' ∷ b'"' ∷ (replace_all b'"' (replace_all b'\\' v) ++ b'"' ∷ []))

-- The guards of containerEnvForSetEnv on a name and a value.
unfoldable pub is_forwarded : Text → Text → Bool
unfolding contains_any
is_forwarded k v =
    not (is_empty k)
    && not (is_listed skip_env_exact k)
    && not (
        has_prefix (bytes "SUPERVISOR_") k
        || (has_prefix (bytes "DEVPOD_") k || has_prefix (bytes "KUBERNETES_") k))
    && not (contains_any v (10 ∷ 13 ∷ []))

unfoldable pub container_env_for_set_env : List Text → List Text
unfolding cut_equals is_forwarded quote_set_env_pair
container_env_for_set_env [] = []
container_env_for_set_env (kv ∷ environ) =
    let rest = container_env_for_set_env environ in
    elim (cut_equals kv) [
      | none ↦ rest
      | some (k, v) ↦ if is_forwarded k v then quote_set_env_pair k v ∷ rest else rest
    ]

-- bundledZshFunctionsDir: the last of the matches.
unfoldable pub last_match : List Text → Text
last_match [] = []
last_match (m ∷ []) = m
last_match (m ∷ n ∷ ms) = last_match (n ∷ ms)

unfoldable pub bundled_zsh_functions_dir : Outcome Text (List Text) → Text
unfolding last_match
bundled_zsh_functions_dir (refused err) = []
bundled_zsh_functions_dir (passed matches) = last_match matches

-- strings.Join with a space.
unfoldable pub join_spaces : List Text → Text
join_spaces [] = []
join_spaces (w ∷ []) = w
join_spaces (w ∷ v ∷ ws) = w ++ b' ' ∷ join_spaces (v ∷ ws)

-- `matches` is what the glob gives for the directory of zsh functions.
unfoldable pub env_pairs : Text → List Text → Outcome Text (List Text) → List Text
unfolding bundled_zsh_functions_dir
env_pairs chosen container_env matches =
    let dir = bundled_zsh_functions_dir matches in
    bytes "PATH=/usr/local/sbin:/usr/local/bin:/usr/sbin:/usr/bin:/sbin:/bin:/opt/devpod/bin"
    ∷ bytes "TERMINFO=/opt/devpod/share/terminfo"
    ∷ bytes
        "TERMINFO_DIRS=/opt/devpod/share/terminfo:/usr/share/terminfo:/etc/terminfo:/lib/terminfo"
    ∷ ((if is_empty dir
          then []
          else (bytes "FPATH="
              ++ dir
              ++ bytes ":/usr/share/zsh/functions:/usr/local/share/zsh/site-functions")
            ∷ [])
        ++ (bytes "DEVPOD_ACTIVE_SHELL=" ++ chosen) ∷ container_env)

unfoldable pub shell_args_for_chosen : Text → List Text → Outcome Text (List Text) → List Text
unfolding env_pairs join_spaces
shell_args_for_chosen chosen container_env matches =
    bytes "-o" ∷ (bytes "SetEnv=" ++ join_spaces (env_pairs chosen container_env matches)) ∷ []
