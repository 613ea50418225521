-- ===== src/Supervisor/Passwd/Laws.antt =====
-- The shell of root after the rewriting.
use devpods.Prelude.{
  ℕ, ◌≡◌, refl, sym, ap, ◌∙◌, subst, inl, inr, Bool, true, false, Option, none, some, List, [], ◌∷◌,
  append-nil, ◌==◌, Bool-cases, some-injective, All, Text, bytes, is_empty, has_prefix,
}
use devpods.Supervisor.Splitting.{
  split, join, join_rest, HasNo, split-join, split-HasNo, join-All, lacks, lacks-HasNo,
  split-append,
}
use devpods.Supervisor.Passwd.{
  newline, root_prefix, Entry, entry_of, fields_of, root_shell_in, root_shell_from_passwd, patched,
  after_line, patch_line, patch_lines, root_line, rewritten, rewrite_root_passwd, or_fallback,
}
use devpods.Supervisor.Passwd.Lines.{
  new_line, new_line-split, new_line-starts, new_line-HasNo, skip_line, read_line, choose-wanted,
  not_differs,
}

-- A line of root has seven fields or more.
abbrev pub IsWellFormed : Text → Type 0
IsWellFormed line =
    has_prefix root_prefix line ≡ true → (e : Entry) × (entry_of (split b':' line) ≡ some e)

abbrev IsPatched : Text → List Text → List Text → Bool → Type 0
IsPatched want_shell lines lines' changed =
    (root_shell_in lines' ≡ want_shell)
    × All (HasNo newline) lines'
    × ((first : Text) × ((more : List Text) × (lines' ≡ first ∷ more)))
    × (changed ≡ false → root_shell_in lines ≡ want_shell)

module _ (want_shell want_home : Text) (wanted : is_empty want_shell ≡ false)
    (sh : HasNo b':' want_shell) (hm : HasNo b':' want_home) (sn : HasNo newline want_shell)
    (hn : HasNo newline want_home) where
  after_line-IsPatched :
      (line : Text) (lines : List Text) (o : Option (List Text × Bool)) (lines' : List Text)
      (changed : Bool)
      → has_prefix root_prefix line ≡ false
      → HasNo newline line
      → ((ls : List Text) (ch : Bool) → o ≡ some (ls, ch) → IsPatched want_shell lines ls ch)
      → after_line line o ≡ some (lines', changed)
      → IsPatched want_shell (line ∷ lines) lines' changed
  unfolding after_line
  after_line-IsPatched line lines none lines' changed other clean rest h = cc
  after_line-IsPatched line lines (some (ls, ch)) lines' changed other clean rest h =
      let (set, all_clean, _, same) = rest ls ch refl in
      let e : (line ∷ ls, ch) ≡ (lines', changed) = some-injective h in
      subst (λ p. IsPatched want_shell (line ∷ lines) p.0 p.1) e
        (
          skip_line line ls other ∙ set,
          (clean, all_clean),
          (line, (ls, refl)),
          λ k. skip_line line lines other ∙ same k,
        )

  patch_lines-IsPatched :
      (lines lines' : List Text) (changed : Bool)
      → All IsWellFormed lines
      → All (HasNo newline) lines
      → patch_lines want_shell want_home lines ≡ some (lines', changed)
      → IsPatched want_shell lines lines' changed
  unfolding patch_lines patch_line
  patch_lines-IsPatched [] lines' changed formed clean h = cc
  patch_lines-IsPatched (line ∷ lines) lines' changed (good, formed) (clean, cleans) h =
      elim (Bool-cases (has_prefix root_prefix line)) [
        | inr other ↦
            after_line-IsPatched line lines (patch_lines want_shell want_home lines) lines' changed
              other clean (λ ls ch k. patch_lines-IsPatched lines ls ch formed cleans k)
              (rw other at h)
        | inl starts ↦
            let (e, entry) = good starts in
            let new = new_line want_shell want_home line e sh hm starts entry in
            let pair = some-injective (rw (starts, entry) at h) in
            let parts = new_line-split want_shell want_home line e sh hm starts entry in
            subst (λ p. IsPatched want_shell (line ∷ lines) p.0 p.1) pair
              (
                read_line new lines (patched want_shell want_home e)
                      (new_line-starts want_shell want_home line e sh hm starts entry)
                      (ap entry_of parts)
                    ∙ choose-wanted want_shell e.shell wanted,
                (new_line-HasNo want_shell want_home line e sh hm starts entry sn hn clean, cleans),
                (new, (lines, refl)),
                λ k.
                    read_line line lines e starts entry ∙ not_differs want_shell e.shell _ wanted k,
              )
      ]

  or_fallback-All :
      (P : ℕ → Type 0) (want def : Text) → All P want → All P def → All P (or_fallback want def)
  or_fallback-All P [] def h k = k
  or_fallback-All P (c ∷ cs) def h k = h

  or_fallback-wanted : (want def : Text) → is_empty want ≡ false → or_fallback want def ≡ want
  or_fallback-wanted [] def h = cc
  or_fallback-wanted (c ∷ cs) def h = refl

  -- The entry that is put before the others when there is none of root.
  abbrev new_entry : Entry
  new_entry = record {
    leading = (bytes "root", bytes "x", bytes "0", bytes "0", bytes "root");
    home = or_fallback want_home (bytes "/root");
    shell = or_fallback want_shell (bytes "/bin/bash");
    more = [];
  }

  root_line-join : root_line want_shell want_home ≡ join b':' (fields_of new_entry)
  unfolding root_line join join_rest
  root_line-join = rw (append-nil (or_fallback want_shell (bytes "/bin/bash"))) refl

  new_entry-HasNo :
      (sep : ℕ)
      → lacks sep (bytes "root") ≡ true
      → lacks sep (bytes "x") ≡ true
      → lacks sep (bytes "0") ≡ true
      → lacks sep (bytes "/root") ≡ true
      → lacks sep (bytes "/bin/bash") ≡ true
      → HasNo sep want_shell
      → HasNo sep want_home
      → All (HasNo sep) (fields_of new_entry)
  new_entry-HasNo sep r x z h b s k =
      let root = lacks-HasNo sep (bytes "root") r in
      let zero = lacks-HasNo sep (bytes "0") z in
      let P : ℕ → Type 0 = λ c. (c == sep) ≡ false in
      (
        root,
        (
          lacks-HasNo sep (bytes "x") x,
          (
            zero,
            (
              zero,
              (
                root,
                (
                  or_fallback-All P want_home (bytes "/root") k (lacks-HasNo sep (bytes "/root") h),
                  (
                    or_fallback-All P want_shell (bytes "/bin/bash") s
                        (lacks-HasNo sep (bytes "/bin/bash") b),
                    tt,
                  ),
                ),
              ),
            ),
          ),
        ),
      )

  root_line-split : split b':' (root_line want_shell want_home) ≡ fields_of new_entry
  root_line-split =
      ap (split b':') root_line-join
      ∙ split-join b':' _ _ (new_entry-HasNo b':' refl refl refl refl refl sh hm)

  root_line-HasNo : HasNo newline (root_line want_shell want_home)
  root_line-HasNo = subst (HasNo newline) (sym root_line-join) (
      join-All (λ c. (c == newline) ≡ false) b':' (fields_of new_entry) refl
        (new_entry-HasNo newline refl refl refl refl refl sn hn))

  root_line-starts : has_prefix root_prefix (root_line want_shell want_home) ≡ true
  unfolding root_line has_prefix
  root_line-starts = refl

  rewritten-root_shell :
      (old : Text) (o : Option (List Text × Bool))
      → patch_lines want_shell want_home (split newline old) ≡ o
      → All IsWellFormed (split newline old)
      → root_shell_from_passwd (rewritten want_shell want_home old o).0 ≡ want_shell
  unfolding root_shell_from_passwd
  rewritten-root_shell old none h formed =
      ap root_shell_in (split-append newline (root_line want_shell want_home) old root_line-HasNo)
      ∙ read_line (root_line want_shell want_home) (split newline old) new_entry root_line-starts
          (ap entry_of root_line-split)
      ∙ or_fallback-wanted want_shell (bytes "/bin/bash") wanted
  rewritten-root_shell old (some (lines, true)) h formed =
      let (set, clean, (first, (more, same)), _) =
        patch_lines-IsPatched (split newline old) lines true formed (split-HasNo newline old) h in
      ap root_shell_in (
        ap (λ ls. split newline (join newline ls)) same
        ∙ split-join newline first more (subst (All (HasNo newline)) same clean)
        ∙ sym same)
      ∙ set
  rewritten-root_shell old (some (lines, false)) h formed =
      let (_, _, _, same) =
        patch_lines-IsPatched (split newline old) lines false formed (split-HasNo newline old) h in
      same refl

  -- After the rewriting of /etc/passwd, the shell that is read for root is the wanted one, whether its
  -- entry was changed, was right already, or was missing; when root's lines are well formed, and the
  -- wanted texts hold no colon and no line break.
  pub rewrite_root_passwd-shell :
      (old : Text)
      → All IsWellFormed (split newline old)
      → root_shell_from_passwd (rewrite_root_passwd old want_shell want_home).0 ≡ want_shell
  unfolding rewrite_root_passwd
  rewrite_root_passwd-shell old formed = rewritten-root_shell old _ refl formed
