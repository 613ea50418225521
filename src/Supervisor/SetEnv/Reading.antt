-- ===== src/Supervisor/SetEnv/Reading.antt =====
-- The settings that the supervisor passes to sshd, read back.
use devpods.Prelude.{
  ℕ, ◌≡◌, refl, sym, ap, ◌∙◌, ◌≢◌, ◌⊎◌, inl, inr, Bool, true, false, ◌||◌, some, List, [], ◌∷◌,
  ◌++◌, append_assoc, append-nil, arith, ◌==◌, Bool-cases, All, All-append, Text,
}
use devpods.Supervisor.SetEnv.{contains_any, any_byte, quote_set_env_pair, join_spaces}
use devpods.Supervisor.SetEnv.Words.{
  argv_split, start, plain, push_to, end_word, prepend_to, prepend_to-append, prepend_to-word,
  special, IsPlain, start_byte, argv_split-plain, escaped, argv_split-escaped,
}

-- The bytes for which the source quotes a value. A value that holds a single quote must hold one of them.
abbrev pub quoting : Text
quoting = b' ' ∷ 9 ∷ b'"' ∷ b'\\' ∷ []

abbrev pub IsQuotable : Text → Type 0
IsQuotable v = (any_byte 39 v ≡ false) ⊎ (contains_any v quoting ≡ true)

true-ne-false : true ≢ false
true-ne-false h = cc

byte_cases : (c : ℕ) → any_byte c quoting ≡ false → (39 == c) ≡ false → any_byte c special ≡ false
unfolding any_byte
byte_cases c h k = ground arith

neither : (a b : Bool) → (a || b) ≡ false → (a ≡ false) × (b ≡ false)
neither a b h = ground arith

bare-IsPlain : (v : Text) → contains_any v quoting ≡ false → any_byte 39 v ≡ false → IsPlain v
unfolding contains_any any_byte
bare-IsPlain [] h k = tt
bare-IsPlain (c ∷ v) h k =
    let (no_quoting, rest) = neither (any_byte c quoting) (contains_any v quoting) h in
    let (no_quote, more) = neither (39 == c) (any_byte 39 v) k in
    (byte_cases c no_quoting no_quote, bare-IsPlain v rest more)

-- A setting whose name is plain stands for its name and value, in a word.
argv_split-quote :
    (k v s : Text)
    → IsPlain k
    → IsQuotable v
    → argv_split plain (quote_set_env_pair k v ++ s)
      ≡ prepend_to (k ++ b'=' ∷ v) (argv_split plain s)
unfolding quote_set_env_pair argv_split any_byte
argv_split-quote k v s name ok = elim (Bool-cases (contains_any v quoting)) [
  | inr bare ↦ elim ok [
    | inr needs ↦ absurd (true-ne-false (sym needs ∙ bare))
    | inl single ↦ rw bare (
        argv_split-plain (k ++ b'=' ∷ v) s (
          All-append (λ c. any_byte c special ≡ false) k (b'=' ∷ v) name
            (refl, bare-IsPlain v bare single)))
  ]
  | inl special_value ↦
      let line = b'=' ∷ b'"' ∷ (escaped v ++ b'"' ∷ []) in
      rw special_value (
        ap (argv_split plain) (append_assoc k line s)
        ∙ argv_split-plain k (line ++ s) name
        ∙ ap (λ t. prepend_to k (argv_split plain (b'=' ∷ b'"' ∷ t)))
            (append_assoc (escaped v) (b'"' ∷ []) s)
        ∙ ap (λ ws. prepend_to k (push_to b'=' ws)) (argv_split-escaped v s)
        ∙ prepend_to-append k (b'=' ∷ v) (argv_split plain s))
]

-- A name that can begin a word.
abbrev pub IsName : Text → Type 0
IsName [] = Unit
IsName (c ∷ k) = ((c == b'#') ≡ false) × IsPlain (c ∷ k)

named : (k : Text) → IsName k → IsPlain k
named [] h = tt
named (c ∷ k) (_, h) = h

equals_start : (t : Text) → argv_split start (b'=' ∷ t) ≡ argv_split plain (b'=' ∷ t)
unfolding any_byte
equals_start t = start_byte b'=' t refl refl

argv_split-start :
    (k v s : Text)
    → IsName k
    → argv_split start (quote_set_env_pair k v ++ s)
      ≡ argv_split plain (quote_set_env_pair k v ++ s)
unfolding quote_set_env_pair
argv_split-start [] v s h = elim (Bool-cases (contains_any v quoting)) [
  | inl e ↦ rw e (equals_start _)
  | inr e ↦ rw e (equals_start _)
]
argv_split-start (c ∷ k) v s (sign, (h, hs)) = elim (Bool-cases (contains_any v quoting)) [
  | inl e ↦ rw e (start_byte c _ h sign)
  | inr e ↦ rw e (start_byte c _ h sign)
]

-- The settings and their plain readings.
abbrev pub settings : List (Text × Text) → List Text
settings [] = []
settings ((k, v) ∷ kvs) = quote_set_env_pair k v ∷ settings kvs

abbrev pub readings : List (Text × Text) → List Text
readings [] = []
readings ((k, v) ∷ kvs) = (k ++ b'=' ∷ v) ∷ readings kvs

abbrev pub IsReadable : Text × Text → Type 0
IsReadable kv = IsName kv.0 × IsQuotable kv.1

-- The settings that are joined by spaces are read back by argv_split one by one, each with its value as it
-- was, whatever blanks, double quotes and backslashes the values hold; if the names hold none of them, no
-- single quote and no number sign in front, and a value with a single quote also holds a blank, a double
-- quote or a backslash.
pub argv_split-settings :
    (k v : Text) (kvs : List (Text × Text))
    → All IsReadable ((k, v) ∷ kvs)
    → argv_split start (join_spaces (settings ((k, v) ∷ kvs))) ≡ some (readings ((k, v) ∷ kvs))
unfolding join_spaces argv_split
argv_split-settings k v [] ((name, value), _) =
    let pair = quote_set_env_pair k v in
    ap (argv_split start) (sym (append-nil pair))
    ∙ argv_split-start k v [] name
    ∙ argv_split-quote k v [] (named k name) value
    ∙ prepend_to-word (k ++ b'=' ∷ v) []
argv_split-settings k v ((j, w) ∷ kvs) ((name, value), hs) =
    let rest = b' ' ∷ join_spaces (settings ((j, w) ∷ kvs)) in
    argv_split-start k v rest name
    ∙ argv_split-quote k v rest (named k name) value
    ∙ ap (λ ws. prepend_to (k ++ b'=' ∷ v) (end_word ws)) (argv_split-settings j w kvs hs)
    ∙ prepend_to-word (k ++ b'=' ∷ v) (readings ((j, w) ∷ kvs))
