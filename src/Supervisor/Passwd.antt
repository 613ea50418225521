-- ===== src/Supervisor/Passwd.antt =====
-- cmd/supervisor/shell.go: the entry of root in /etc/passwd.
pub mod Lines
pub mod Laws
use devpods.Prelude.{
  ℕ, zero, suc, ◌+◌, ◌-◌, ◌*◌, ◌/◌, ◌%◌, ◌^◌, ◌≤◌, ◌<◌, ◌≡◌, refl, sym, ap, ◌∙◌, subst, ◌≢◌, ◌↔◌,
  ◌⊎◌, inl, inr, Bool, true, false, not, ◌&&◌, ◌||◌, Option, none, some, List, [], ◌∷◌, ◌++◌, map,
  append_assoc, append-nil, arith, ltb, leb, ◌==◌, if◌then◌else◌, ltb→lt, lt→ltb, leb→le, le→leb,
  ==_iff, tests, Bool-cases, Option-cases, and-true, is_none, some-injective, Outcome, refused,
  passed, ◌>>=◌, or_refuse, refuse_if, passed-injective, refused-ne-passed, Outcome-cases,
  >>=-passed, or_refuse-passed, refuse_if-passed, guarded, length, length-append, List-cases, all,
  All, All-append, Text, bytes, text_eq, text_eq_refl, text_eq_iff, Text-cases, text_neq-sym,
  is_empty, has_prefix, contains, itoa, digits, Dict, lookup, insert, remove, lookup-insert,
  lookup-remove,
}
use devpods.Supervisor.Splitting.{split, join}

abbrev pub newline : ℕ
newline = 10

abbrev pub root_prefix : Text
root_prefix = bytes "root:"

-- A line of seven fields or more, of which the code reads the sixth and the seventh.
pub record Entry : Type 0 where
  pub leading : Text × Text × Text × Text × Text
  pub home : Text
  pub shell : Text
  pub more : List Text

abbrev pub entry_of : List Text → Option Entry
entry_of (a ∷ b ∷ c ∷ d ∷ e ∷ home ∷ shell ∷ more) =
    some (record { leading = (a, b, c, d, e); home = home; shell = shell; more = more })
entry_of _ = none

abbrev pub fields_of : Entry → List Text
fields_of e =
    e.leading.0 ∷ e.leading.1 ∷ e.leading.2 ∷ e.leading.3 ∷ e.leading.4 ∷ e.home ∷ e.shell ∷ e.more

abbrev pub shell_of : Option Entry → Text
shell_of none = []
shell_of (some e) = e.shell

unfoldable pub root_shell_in : List Text → Text
root_shell_in [] = []
root_shell_in (line ∷ lines) =
    let rest = root_shell_in lines in
    if not (has_prefix root_prefix line) then rest else shell_of (entry_of (split b':' line))

unfoldable pub root_shell_from_passwd : Text → Text
unfolding root_shell_in
root_shell_from_passwd old = root_shell_in (split newline old)

-- A wanted text that is empty changes nothing.
abbrev pub choose : Text → Text → Text
choose [] old = old
choose (c ∷ cs) old = c ∷ cs

unfoldable pub differs : Text → Text → Bool
differs want old = not (is_empty want) && not (text_eq old want)

abbrev pub patched : Text → Text → Entry → Entry
patched want_shell want_home e = record e {
  home = choose want_home e.home;
  shell = choose want_shell e.shell;
}

-- The loop over the lines: none without an entry of root, else the lines and whether one changes.
unfoldable pub after_line : Text → Option (List Text × Bool) → Option (List Text × Bool)
after_line line none = none
after_line line (some (lines, changed)) = some (line ∷ lines, changed)

unfoldable pub patch_line :
    Text
    → Text
    → Text
    → List Text
    → Option Entry
    → Option (List Text × Bool)
    → Option (List Text × Bool)
unfolding after_line differs
patch_line want_shell want_home line lines none rest = after_line line rest
patch_line want_shell want_home line lines (some e) rest = some (
  join b':' (fields_of (patched want_shell want_home e)) ∷ lines,
  differs want_shell e.shell || differs want_home e.home,
)

unfoldable pub patch_lines : Text → Text → List Text → Option (List Text × Bool)
unfolding patch_line
patch_lines want_shell want_home [] = none
patch_lines want_shell want_home (line ∷ lines) =
    let rest = patch_lines want_shell want_home lines in
    if not (has_prefix root_prefix line)
    then after_line line rest
    else patch_line want_shell want_home line lines (entry_of (split b':' line)) rest

abbrev pub or_fallback : Text → Text → Text
or_fallback [] def = def
or_fallback (c ∷ cs) def = c ∷ cs

unfoldable pub root_line : Text → Text → Text
root_line want_shell want_home =
    bytes "root:x:0:0:root:"
    ++ (or_fallback want_home (bytes "/root") ++ b':' ∷ or_fallback want_shell (bytes "/bin/bash"))

abbrev pub rewritten : Text → Text → Text → Option (List Text × Bool) → Text × Bool
rewritten want_shell want_home old none = (root_line want_shell want_home ++ newline ∷ old, true)
rewritten want_shell want_home old (some (lines, true)) = (join newline lines, true)
rewritten want_shell want_home old (some (lines, false)) = (old, false)

unfoldable pub rewrite_root_passwd : Text → Text → Text → Text × Bool
unfolding patch_lines root_line
rewrite_root_passwd old want_shell want_home =
    rewritten want_shell want_home old (patch_lines want_shell want_home (split newline old))

abbrev pub text_or_nothing : Outcome Text Text → Text
text_or_nothing (refused err) = []
text_or_nothing (passed text) = text

-- patchPasswdRootShell, by what the read gives: the text that it writes, if it writes one.
unfoldable pub patch_passwd_root_shell : Text → Text → Outcome Text Text → Option Text
unfolding rewrite_root_passwd
patch_passwd_root_shell want_shell want_home read =
    if is_empty want_shell && is_empty want_home
    then none
    else (let (text, changed) = rewrite_root_passwd (text_or_nothing read) want_shell want_home in
        if not changed then none else some text)
