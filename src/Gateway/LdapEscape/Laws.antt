-- ===== src/Gateway/LdapEscape/Laws.antt =====
-- The escaped value is inert in a search filter, and an RFC 4515 reader gets the value back.
use devpods.Prelude.{
  ℕ, ◌+◌, ◌-◌, ◌*◌, ◌≡◌, refl, sym, ◌≢◌, true, false, ◌&&◌, Option, none, some, [], ◌∷◌, ◌++◌,
  append_assoc, append-nil, arith, leb, ◌==◌, if◌then◌else◌, All, All-append, Text,
}
use devpods.Gateway.LdapEscape.{is_special, escape_byte, is_safe, write_escaped, escape_rfc4515}

-- The value of a hexadecimal digit, in either case.
hex_digit : ℕ → Option ℕ
hex_digit c =
    if leb b'0' c && leb c b'9'
    then some (c - b'0')
    else if leb b'a' c && leb c b'f'
    then some (c - b'a' + 10)
    else if leb b'A' c && leb c b'F'
    then some (c - b'A' + 10)
    else none

-- A backslash and two hexadecimal digits stand for a byte.
decode_escape : ℕ → ℕ → Option ℕ
unfolding hex_digit
decode_escape h l = elim (hex_digit h) [
  | none ↦ none
  | some a ↦ elim (hex_digit l) [ none ↦ none | some b ↦ some (a * 16 + b) ]
]

cons_decoded : Option ℕ → Option Text → Option Text
cons_decoded none r = none
cons_decoded (some c) none = none
cons_decoded (some c) (some s) = some (c ∷ s)

-- Where a reader of an assertion value stands: in plain text, behind a backslash, behind its first
-- digit.
data Mode : Type 0 where
  text backslash : Mode
  digit : ℕ → Mode

-- How RFC 4515 reads an assertion value: raw parentheses, asterisks and NUL are not allowed.
read : Mode → Text → Option Text
unfolding decode_escape cons_decoded is_special
read text [] = some []
read backslash [] = none
read (digit h) [] = none
read text (c ∷ s) =
    let escaped = read backslash s in
    let plain = cons_decoded (some c) (read text s) in
    if c == b'\\' then escaped else if is_special c then none else plain
read backslash (h ∷ s) = read (digit h) s
read (digit h) (l ∷ s) = cons_decoded (decode_escape h l) (read text s)

pub read_value : Text → Option Text
unfolding read
read_value s = read text s

write_escaped-append : (s out : Text) → write_escaped s out ≡ out ++ write_escaped s []
unfolding write_escaped
write_escaped-append [] out = sym (append-nil out)
write_escaped-append (c ∷ s) out =
    rw (write_escaped-append s (out ++ escape_byte c), write_escaped-append s (escape_byte c))
      (append_assoc out (escape_byte c) (write_escaped s []))

write_escaped-cons :
    (c : ℕ) (s : Text) → write_escaped (c ∷ s) [] ≡ escape_byte c ++ write_escaped s []
write_escaped-cons c s = unfold write_escaped in write_escaped-append s (escape_byte c)

read-escape_byte :
    (c : ℕ) (s : Text) → read text (escape_byte c ++ s) ≡ cons_decoded (some c) (read text s)
unfolding read escape_byte
read-escape_byte c s = ground arith

read-write_escaped : (s : Text) → read text (write_escaped s []) ≡ some s
read-write_escaped [] = unfold read write_escaped in refl
read-write_escaped (c ∷ s) =
    rw (write_escaped-cons c s, read-escape_byte c (write_escaped s []), read-write_escaped s)
      (unfold cons_decoded in refl)

-- The bytes by which a filter is cut up.
abbrev pub IsInert : ℕ → Type 0
IsInert c = (c ≢ b'(') × (c ≢ b')') × (c ≢ b'*') × (c ≢ 0)

escape_byte-IsInert : (c : ℕ) → All IsInert (escape_byte c)
unfolding escape_byte
escape_byte-IsInert c = ground arith

write_escaped-IsInert : (s : Text) → All IsInert (write_escaped s [])
write_escaped-IsInert [] = unfold write_escaped in tt
write_escaped-IsInert (c ∷ s) = rw (write_escaped-cons c s) (
    All-append IsInert (escape_byte c) (write_escaped s []) (escape_byte-IsInert c)
      (write_escaped-IsInert s))

escape_byte_safe : (c : ℕ) → is_special c ≡ false → escape_byte c ≡ c ∷ []
unfolding escape_byte is_special
escape_byte_safe c h = ground arith

safe-write_escaped : (s : Text) → is_safe s ≡ true → write_escaped s [] ≡ s
unfolding is_safe
safe-write_escaped [] h = unfold write_escaped in refl
safe-write_escaped (c ∷ s) h =
    rw (write_escaped-cons c s) (ground (arith, escape_byte_safe c, safe-write_escaped s))

-- The fast path is the slow path: with the early returns left out the result is the same.
pub escape_rfc4515-write_escaped : (s : Text) → escape_rfc4515 s ≡ write_escaped s []
unfolding escape_rfc4515
escape_rfc4515-write_escaped [] = unfold write_escaped in refl
escape_rfc4515-write_escaped (c ∷ s) = ground (arith, safe-write_escaped (c ∷ s))

-- Whatever the user name, reading the escaped value by RFC 4515 gives the name back: the value is
-- well formed, and it matches that name alone.
pub read_value-escape_rfc4515 : (s : Text) → read_value (escape_rfc4515 s) ≡ some s
unfolding read_value
read_value-escape_rfc4515 s = rw (escape_rfc4515-write_escaped s) (read-write_escaped s)

-- The escaped value holds no parenthesis, no asterisk and no NUL, so it cannot add to the filter.
pub escape_rfc4515-IsInert : (s : Text) → All IsInert (escape_rfc4515 s)
escape_rfc4515-IsInert s = rw (escape_rfc4515-write_escaped s) (write_escaped-IsInert s)
