-- ===== src/Supervisor/Passwd/Lines.antt =====
-- The lines of /etc/passwd as fields, and the line that is put in place of one.
use devpods.Prelude.{
  ℕ, ◌≡◌, refl, sym, ap, ◌∙◌, subst, ◌≢◌, inl, inr, Bool, true, false, ◌||◌, some, List, [], ◌∷◌,
  ◌++◌, ◌==◌, ==_iff, Bool-cases, some-injective, All, Text, bytes, Text-cases, is_empty,
  has_prefix,
}
use devpods.Supervisor.Splitting.{
  split, join, join_rest, HasNo, split-join, split-HasNo, split-All, join-All,
}
use devpods.Supervisor.Passwd.{
  newline, root_prefix, Entry, entry_of, fields_of, root_shell_in, choose, differs, patched,
}

true-ne-false : true ≢ false
true-ne-false h = cc

same_head : {x y : Text} {xs ys : List Text} → x ∷ xs ≡ y ∷ ys → x ≡ y
same_head h = cc

has_prefix-split : (p s : Text) → has_prefix p s ≡ true → (r : Text) × (s ≡ p ++ r)
unfolding has_prefix
has_prefix-split [] s h = (s, refl)
has_prefix-split (a ∷ p) [] h = cc
has_prefix-split (a ∷ p) (b ∷ s) h = elim (Bool-cases (a == b)) [
  | inr e ↦ absurd (true-ne-false (sym (rw e at h)))
  | inl e ↦ let (r, k) = has_prefix-split p s (rw e at h) in (r, rw ((==_iff a b).0 e, k) refl)
]

-- A text is an entry by its fields.
entry_of-fields : (fs : List Text) (e : Entry) → entry_of fs ≡ some e → fields_of e ≡ fs
entry_of-fields [] e h = cc
entry_of-fields (a ∷ []) e h = cc
entry_of-fields (a ∷ b ∷ []) e h = cc
entry_of-fields (a ∷ b ∷ c ∷ []) e h = cc
entry_of-fields (a ∷ b ∷ c ∷ d ∷ []) e h = cc
entry_of-fields (a ∷ b ∷ c ∷ d ∷ f ∷ []) e h = cc
entry_of-fields (a ∷ b ∷ c ∷ d ∷ f ∷ g ∷ []) e h = cc
entry_of-fields (a ∷ b ∷ c ∷ d ∷ f ∷ g ∷ i ∷ more) e h = ap fields_of (sym (some-injective h))

-- The first field of a line of root.
root_field :
    (line : Text) (e : Entry)
    → has_prefix root_prefix line ≡ true
    → entry_of (split b':' line) ≡ some e
    → e.leading.0 ≡ bytes "root"
unfolding split
root_field line e h k =
    let (r, same) = has_prefix-split root_prefix line h in
    let fields = entry_of-fields (split b':' line) e k in same_head (fields ∙ ap (split b':') same)

-- A line whose entry is patched is a line of root with the patched fields.
module _ (want_shell want_home line : Text) (e : Entry) (sh : HasNo b':' want_shell)
    (hm : HasNo b':' want_home) (starts : has_prefix root_prefix line ≡ true)
    (entry : entry_of (split b':' line) ≡ some e) where
  choose-All : (P : ℕ → Type 0) (want old : Text) → All P want → All P old → All P (choose want old)
  choose-All P [] old h k = k
  choose-All P (c ∷ cs) old h k = h

  patched-All :
      (P : ℕ → Type 0)
      → All P want_shell
      → All P want_home
      → All (All P) (fields_of e)
      → All (All P) (fields_of (patched want_shell want_home e))
  patched-All P s h (a, (b, (c, (d, (f, (home, (shell, more))))))) = (
    a,
    (
      b,
      (c, (d, (f, (choose-All P want_home _ h home, (choose-All P want_shell _ s shell, more))))),
    ),
  )

  abbrev pub new_line : Text
  new_line = join b':' (fields_of (patched want_shell want_home e))

  pub new_line-split : split b':' new_line ≡ fields_of (patched want_shell want_home e)
  new_line-split =
      let whole =
        subst (λ fs. All (HasNo b':') fs) (sym (entry_of-fields (split b':' line) e entry))
          (split-HasNo b':' line) in
      split-join b':' _ _ (patched-All (λ c. (c == b':') ≡ false) sh hm whole)

  pub new_line-starts : has_prefix root_prefix new_line ≡ true
  unfolding join join_rest has_prefix
  new_line-starts = rw (root_field line e starts entry) refl

  pub new_line-HasNo :
      HasNo newline want_shell
      → HasNo newline want_home
      → HasNo newline line
      → HasNo newline new_line
  new_line-HasNo s h l =
      let whole =
        subst (λ fs. All (HasNo newline) fs) (sym (entry_of-fields (split b':' line) e entry))
          (split-All (λ c. (c == newline) ≡ false) b':' line l) in
      join-All (λ c. (c == newline) ≡ false) b':' _ refl
        (patched-All (λ c. (c == newline) ≡ false) s h whole)

pub skip_line :
    (line : Text) (lines : List Text)
    → has_prefix root_prefix line ≡ false
    → root_shell_in (line ∷ lines) ≡ root_shell_in lines
unfolding root_shell_in
skip_line line lines h = rw h refl

pub read_line :
    (line : Text) (lines : List Text) (e : Entry)
    → has_prefix root_prefix line ≡ true
    → entry_of (split b':' line) ≡ some e
    → root_shell_in (line ∷ lines) ≡ e.shell
unfolding root_shell_in
read_line line lines e h k = rw (h, k) refl

pub choose-wanted : (want old : Text) → is_empty want ≡ false → choose want old ≡ want
choose-wanted [] old h = cc
choose-wanted (c ∷ cs) old h = refl

pub not_differs :
    (want old : Text) (b : Bool)
    → is_empty want ≡ false
    → (differs want old || b) ≡ false
    → old ≡ want
unfolding differs
not_differs want old b h k = elim (Text-cases old want) [
  | inl (same, e) ↦ same
  | inr (other, e) ↦ absurd (true-ne-false (rw (h, e) at k))
]
