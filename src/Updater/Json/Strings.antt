-- ===== src/Updater/Json/Strings.antt =====
-- The strings and numbers of `JsonParser`. The index into the text is the rest of it.
use github_codespaces_proxy.Base.{
  ℕ, zero, suc, ◌+◌, ◌*◌, ◌/◌, ◌%◌, Bool, Option, none, some, ◌||◌, [], ◌∷◌, ◌++◌, ltb, ◌==◌,
  if◌then◌else◌, Bytes, is_digit, hex_value, length,
}

-- A code point below 2 ^ 16 as UTF-8; a surrogate is taken like any other.
unfoldable pub utf8 : ℕ → Bytes
utf8 cp =
    if ltb cp 0x80
    then cp ∷ []
    else if ltb cp 0x800
    then (0xC0 + cp / 64) ∷ (0x80 + cp % 64) ∷ []
    else (0xE0 + cp / 4096) ∷ (0x80 + cp / 64 % 64) ∷ (0x80 + cp % 64) ∷ []

-- So many hexadecimal digits, and the rest.
unfoldable pub hex_number : ℕ → ℕ → Bytes → Option (ℕ × Bytes)
unfolding hex_value
hex_number zero cp s = some (cp, s)
hex_number (suc n) cp [] = none
hex_number (suc n) cp (h ∷ s) = elim (hex_value h) [
  | none ↦ none
  | some v ↦ hex_number n (cp * 16 + v) s
]

-- What a character behind a backslash other than u stands for.
unfoldable pub escaped : ℕ → ℕ
escaped e =
    if e == b'n'
    then 10
    else if e == b't'
    then 9
    else if e == b'r'
    then 13
    else if e == b'b'
    then 8
    else if e == b'f'
    then 12
    else e

-- Behind a backslash: what is added, and the rest.
unfoldable pub escape_at : Bytes → Option (Bytes × Bytes)
unfolding hex_number utf8 escaped
escape_at [] = none
escape_at (e ∷ s) =
    let unicode : Option (Bytes × Bytes) = elim (hex_number 4 0 s) [
      | none ↦ none
      | some (cp, rest) ↦ some (utf8 cp, rest)
    ] in
    if e == b'u' then unicode else some (escaped e ∷ [], s)

-- A string from behind its quote, and the rest behind the closing one.
unfoldable pub string_from : ℕ → Bytes → Bytes → Option (Bytes × Bytes)
string_from zero out s = none
string_from (suc fuel) out [] = none
string_from (suc fuel) out (c ∷ s) =
    let plain = string_from fuel (out ++ c ∷ []) s in
    let special : Option (Bytes × Bytes) = elim (escape_at s) [
      | none ↦ none
      | some (added, rest) ↦ string_from fuel (out ++ added) rest
    ] in
    if c == b'"' then some (out, s) else if c == 92 then special else plain

unfoldable pub parse_str : Bytes → Option (Bytes × Bytes)
unfolding string_from
parse_str s = string_from (suc (length s)) [] s

unfoldable pub is_number_char : ℕ → Bool
unfolding is_digit
is_number_char c = is_digit c || c == b'.' || c == b'e' || c == b'E' || c == b'+' || c == b'-'

unfoldable pub number_from : Bytes → Bytes × Bytes
unfolding is_number_char
number_from [] = ([], [])
number_from (c ∷ s) =
    let more = number_from s in if is_number_char c then (c ∷ more.0, more.1) else ([], c ∷ s)
