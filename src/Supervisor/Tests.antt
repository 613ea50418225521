-- ===== src/Supervisor/Tests.antt =====
-- Instances of the theorems on the shell, /etc/passwd and the settings of sshd.
use devpods.Prelude.{
  inl, inr, some, none, some-injective, ◌≢◌, has_prefix, ℕ, ◌≡◌, refl, [], ◌∷◌, Outcome, passed,
  All, Text, bytes, has_prefix, if◌then◌else◌, text_eq, lookup,
}
use devpods.Supervisor.Splitting.{split, lacks-HasNo}
use devpods.Supervisor.Passwd.{
  patch_passwd_root_shell, patch_lines, patch_line, root_shell_from_passwd, rewrite_root_passwd,
  newline, Entry,
}
use devpods.Supervisor.Passwd.Laws.{IsWellFormed, rewrite_root_passwd-shell}
use devpods.Supervisor.Startup.{Surroundings, written_passwd}
use devpods.Supervisor.Startup.Laws.{IsLeftBy, final_passwd-forced}
use devpods.Supervisor.Shell.{resolve_shell, resolve_wanted}
use devpods.Supervisor.SetEnv.{join_spaces, any_byte, contains_any, quote_set_env_pair}
use devpods.Supervisor.SetEnv.Words.{argv_split, start}
use devpods.Supervisor.SetEnv.Reading.{settings, argv_split-settings}

stat : Text → Outcome Text ℕ
stat path = passed 493

-- A distroless image.
abbrev passwd : Text
passwd = bytes "bin:x:1:1:bin:/bin:/bin/false\nroot:x:0:0:root:/root:/sbin/nologin\n"

abbrev root_entry : Entry
root_entry = record {
  leading = (bytes "root", bytes "x", bytes "0", bytes "0", bytes "root");
  home = bytes "/root";
  shell = bytes "/sbin/nologin";
  more = [];
}

well_formed : All IsWellFormed (split newline passwd)
unfolding split has_prefix
well_formed = (λ h. cc, (λ h. (root_entry, refl), (λ h. cc, tt)))

rewrite_root_passwd-shell_example :
    root_shell_from_passwd
      (rewrite_root_passwd passwd (bytes "/opt/devpod/bin/bash") (bytes "/home")).0
    ≡ bytes "/opt/devpod/bin/bash"
rewrite_root_passwd-shell_example =
    let shell = bytes "/opt/devpod/bin/bash" in
    let home = bytes "/home" in
    rewrite_root_passwd-shell shell home refl (lacks-HasNo b':' shell refl)
      (lacks-HasNo b':' home refl) (lacks-HasNo newline shell refl) (lacks-HasNo newline home refl)
      passwd well_formed

argv_split-settings_example :
    argv_split start
      (join_spaces (settings ((bytes "MSG", bytes "it's \"b\"") ∷ (bytes "N", bytes "1") ∷ [])))
    ≡ some (bytes "MSG=it's \"b\"" ∷ bytes "N=1" ∷ [])
unfolding any_byte contains_any
argv_split-settings_example =
    argv_split-settings (bytes "MSG") (bytes "it's \"b\"") ((bytes "N", bytes "1") ∷ [])
      (((refl, (refl, (refl, (refl, tt)))), inr refl), (((refl, (refl, tt)), inl refl), tt))

-- A single quote in a value without blanks is not quoted: the line has an open quote, and no setting is
-- read.
open_quote :
    argv_split start
      (join_spaces (settings ((bytes "MSG", bytes "it's") ∷ (bytes "N", bytes "1") ∷ [])))
    ≡ none
unfolding argv_split quote_set_env_pair any_byte contains_any join_spaces
open_quote = refl

abbrev surroundings : Surroundings
surroundings = record {
  getenv = λ name.
      if text_eq name (bytes "DEVPOD_SHELL")
      then bytes "zsh"
      else (if text_eq name (bytes "HOME") then bytes "/home" else []);
  environ = [];
  passwd = passed passwd;
  stat = stat;
  matches = passed [];
  pid = 1;
}

some-ne-none : {t : Text} → some t ≢ none
some-ne-none h = cc

abbrev file : Text
file = (rewrite_root_passwd passwd (bytes "/opt/devpod/bin/zsh") (bytes "/home")).0

file-IsLeftBy : IsLeftBy surroundings file
unfolding written_passwd text_eq lookup resolve_shell resolve_wanted patch_passwd_root_shell
    rewrite_root_passwd patch_lines split patch_line has_prefix
file-IsLeftBy = (λ text h. some-injective h, λ h. absurd (some-ne-none h))

final_passwd-forced_example : root_shell_from_passwd file ≡ bytes "/opt/devpod/bin/zsh"
unfolding text_eq lookup resolve_shell resolve_wanted
final_passwd-forced_example =
    final_passwd-forced surroundings file file-IsLeftBy refl refl refl refl well_formed
