-- ===== src/Supervisor/SetEnv/Words.antt =====
-- What sshd gets from the settings: OpenSSH's argv_split, which reads the arguments of a keyword.
use devpods.Prelude.{
  ℕ, ◌≡◌, refl, sym, ap, ◌∙◌, subst, inl, inr, Bool, false, ◌||◌, Option, none, some, List, [], ◌∷◌,
  ◌++◌, arith, ◌==◌, if◌then◌else◌, ==_iff, Bool-cases, All, Text,
}
use devpods.Supervisor.Splitting.{push}
use devpods.Supervisor.SetEnv.{any_byte, replace_all}

-- Before a word, in it, inside quotes that a byte ends, and after a backslash in a word or in quotes.
pub data Mode : Type 0 where
  start plain escape : Mode
  quoted quoted_escape : ℕ → Mode

abbrev pub is_blank : ℕ → Bool
is_blank c = c == b' ' || c == 9

abbrev pub is_quote : ℕ → Bool
is_quote c = c == b'"' || c == 39

abbrev pub push_to : ℕ → Option (List Text) → Option (List Text)
push_to c none = none
push_to c (some ws) = some (push c ws)

abbrev pub end_word : Option (List Text) → Option (List Text)
end_word none = none
end_word (some ws) = some ([] ∷ ws)

-- A byte of a word that is no blank.
abbrev pub in_word :
    ℕ → Option (List Text) → Option (List Text) → Option (List Text) → Option (List Text)
in_word c rest escaped inside =
    if c == b'\\' then escaped else (if is_quote c then inside else push_to c rest)

-- The words of a line; an open quote is an error, and a word does not start with a number sign, which
-- begins a comment. A backslash escapes quotes and backslashes, outside quotes also a space; before any
-- other byte it stands for itself.
unfoldable pub argv_split : Mode → Text → Option (List Text)
argv_split start [] = some []
argv_split plain [] = some ([] ∷ [])
argv_split escape [] = some ((b'\\' ∷ []) ∷ [])
argv_split (quoted q) [] = none
argv_split (quoted_escape q) [] = none
argv_split start (c ∷ s) =
    let skip = argv_split start s in
    let rest = argv_split plain s in
    let escaped = argv_split escape s in
    let inside = argv_split (quoted c) s in
    if is_blank c then skip else (if c == b'#' then some [] else in_word c rest escaped inside)
argv_split plain (c ∷ s) =
    let next = argv_split start s in
    let rest = argv_split plain s in
    let escaped = argv_split escape s in
    let inside = argv_split (quoted c) s in
    if is_blank c then end_word next else in_word c rest escaped inside
argv_split escape (c ∷ s) =
    let next = argv_split start s in
    let rest = argv_split plain s in
    if is_quote c || (c == b'\\' || c == b' ')
    then push_to c rest
    else push_to b'\\' (if c == 9 then end_word next else push_to c rest)
argv_split (quoted q) (c ∷ s) =
    let out = argv_split plain s in
    let escaped = argv_split (quoted_escape q) s in
    let rest = argv_split (quoted q) s in
    if c == b'\\' then escaped else (if c == q then out else push_to c rest)
argv_split (quoted_escape q) (c ∷ s) =
    let rest = argv_split (quoted q) s in
    if is_quote c || c == b'\\' then push_to c rest else push_to b'\\' (push_to c rest)

-- The bytes in front of a word that is read.
abbrev pub prepend_to : Text → Option (List Text) → Option (List Text)
prepend_to [] out = out
prepend_to (c ∷ w) out = push_to c (prepend_to w out)

pub prepend_to-append :
    (k w : Text) (out : Option (List Text))
    → prepend_to k (prepend_to w out) ≡ prepend_to (k ++ w) out
prepend_to-append [] w out = refl
prepend_to-append (c ∷ k) w out = ap (push_to c) (prepend_to-append k w out)

pub prepend_to-word : (w : Text) (ws : List Text) → prepend_to w (some ([] ∷ ws)) ≡ some (w ∷ ws)
prepend_to-word [] ws = refl
prepend_to-word (c ∷ w) ws = ap (push_to c) (prepend_to-word w ws)

-- Blanks, quotes and the backslash.
abbrev pub special : Text
special = b' ' ∷ 9 ∷ b'"' ∷ b'\\' ∷ 39 ∷ []

abbrev pub IsPlain : Text → Type 0
IsPlain = All (λ c. any_byte c special ≡ false)

none_of :
    (a b c d e : Bool)
    → (a || (b || (c || (d || (e || false))))) ≡ false
    → ((a || b) ≡ false) × ((c || e) ≡ false) × (d ≡ false)
none_of a b c d e h = ground arith

-- One byte that is not special stands for itself, also at the start, where it is no number sign.
plain_byte :
    (c : ℕ) (s : Text)
    → any_byte c special ≡ false
    → argv_split plain (c ∷ s) ≡ push_to c (argv_split plain s)
unfolding argv_split any_byte
plain_byte c s h =
    let (blank, quote, slash) = none_of (c == b' ') (c == 9) (c == b'"') (c == b'\\') (c == 39) h in
    rw (blank, slash, quote) refl

pub start_byte :
    (c : ℕ) (s : Text)
    → any_byte c special ≡ false
    → (c == b'#') ≡ false
    → argv_split start (c ∷ s) ≡ argv_split plain (c ∷ s)
unfolding argv_split any_byte
start_byte c s h sign =
    let (blank, quote, slash) = none_of (c == b' ') (c == 9) (c == b'"') (c == b'\\') (c == 39) h in
    rw (blank, sign) refl

pub argv_split-plain :
    (w s : Text) → IsPlain w → argv_split plain (w ++ s) ≡ prepend_to w (argv_split plain s)
argv_split-plain [] s h = refl
argv_split-plain (c ∷ w) s (h, hs) =
    plain_byte c (w ++ s) h ∙ ap (push_to c) (argv_split-plain w s hs)

abbrev pub escaped : Text → Text
escaped v = replace_all b'"' (replace_all b'\\' v)

-- The two bytes that are escaped, and the others.
escaped_slash :
    (v s : Text) (out : Option (List Text))
    → argv_split (quoted b'"') (escaped v ++ s) ≡ out
    → argv_split (quoted b'"') (escaped (b'\\' ∷ v) ++ s) ≡ push_to b'\\' out
unfolding argv_split replace_all
escaped_slash v s out h = ap (push_to b'\\') h

escaped_quote :
    (v s : Text) (out : Option (List Text))
    → argv_split (quoted b'"') (escaped v ++ s) ≡ out
    → argv_split (quoted b'"') (escaped (b'"' ∷ v) ++ s) ≡ push_to b'"' out
unfolding argv_split replace_all
escaped_quote v s out h = ap (push_to b'"') h

unescaped :
    (c : ℕ) (v s : Text) (out : Option (List Text))
    → (c == b'\\') ≡ false
    → (c == b'"') ≡ false
    → argv_split (quoted b'"') (escaped v ++ s) ≡ out
    → argv_split (quoted b'"') (escaped (c ∷ v) ++ s) ≡ push_to c out
unfolding argv_split replace_all
unescaped c v s out k e h = rw (k, e) (rw (k, e) (ap (push_to c) h))

-- A quoted value is read back, and its closing quote ends the quotes.
pub argv_split-escaped :
    (v s : Text)
    → argv_split (quoted b'"') (escaped v ++ b'"' ∷ s) ≡ prepend_to v (argv_split plain s)
unfolding argv_split replace_all
argv_split-escaped [] s = refl
argv_split-escaped (c ∷ v) s =
    let t = b'"' ∷ s in
    let out = prepend_to v (argv_split plain s) in
    let rest = argv_split-escaped v s in
    let Goal : ℕ → Type 0 = λ x. argv_split (quoted b'"') (escaped (x ∷ v) ++ t) ≡ push_to x out in
    elim (Bool-cases (c == b'\\')) [
      | inl k ↦ subst Goal (sym ((==_iff c b'\\').0 k)) (escaped_slash v t out rest)
      | inr k ↦ elim (Bool-cases (c == b'"')) [
        | inl e ↦ subst Goal (sym ((==_iff c b'"').0 e)) (escaped_quote v t out rest)
        | inr e ↦ unescaped c v t out k e rest
      ]
    ]
