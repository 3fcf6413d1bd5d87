-- ===== src/Config.antt =====
-- `parseConfig` and `toInt` of src/server/main.cpp; src/client/main.cpp has the same two functions, as
-- `parseConfigFile` and `toInt`. The index into the text is the rest of it, an index behind the end
-- the empty rest; the file itself is a parameter.
pub mod Lengths
pub mod Rounds
pub mod Written
pub mod Server
pub mod Client
mod Examples
use github_codespaces_proxy.Base.{
  ℕ, zero, suc, ◌+◌, ◌*◌, ◌-◌, ◌%◌, ◌^◌, Bool, true, false, Option, none, some, ◌&&◌, ◌||◌, not,
  List, [], ◌∷◌, ◌++◌, ltb, leb, ◌==◌, if◌then◌else◌, Bytes, codes, is_empty, is_digit, is_space,
  length, text_eq,
}
use github_codespaces_proxy.Client.Url.{digits_value, skip_blanks}
use github_codespaces_proxy.Util.{trim}

abbrev pub Values : Type 0
Values = List (Bytes × Bytes)

-- `out[key] = value`; the order of the map is of no use to anyone.
unfoldable pub put_value : Bytes → Bytes → Values → Values
unfolding text_eq
put_value key value [] = (key, value) ∷ []
put_value key value ((k, v) ∷ out) =
    let rest = put_value key value out in
    if text_eq k key then (key, value) ∷ out else (k, v) ∷ rest

unfoldable pub get_value : Bytes → Values → Option Bytes
unfolding text_eq
get_value key [] = none
get_value key ((k, v) ∷ out) = if text_eq k key then some v else get_value key out

unfoldable pub slash_first : Bytes → Bool
slash_first [] = false
slash_first (c ∷ s) = c == b'/'

-- `skipWs`; the flag says whether the loop is in a comment.
unfoldable pub skip_from : Bool → Bytes → Bytes
unfolding is_space slash_first
skip_from comment [] = []
skip_from true (c ∷ s) =
    let out = skip_from false s in let more = skip_from true s in if c == 10 then out else more
skip_from false (c ∷ s) =
    let out = skip_from false s in
    let more = skip_from true s in
    if is_space c then out else if c == b'/' && slash_first s then more else c ∷ s

unfoldable pub skip_ws : Bytes → Bytes
unfolding skip_from
skip_ws s = skip_from false s

-- One character in front of what was taken, and what is left.
abbrev pub with_char : ℕ → Bytes × Bytes → Bytes × Bytes
with_char c (taken, rest) = (c ∷ taken, rest)

-- Up to the quote, which goes too.
unfoldable pub quoted_key : Bytes → Bytes × Bytes
quoted_key [] = ([], [])
quoted_key (c ∷ s) = let more = with_char c (quoted_key s) in if c == b'"' then ([], s) else more

unfoldable pub is_key_char : ℕ → Bool
unfolding is_digit
is_key_char c = is_digit c || (leb b'A' c && leb c b'Z') || (leb b'a' c && leb c b'z') || c == b'_'

unfoldable pub bare_key : Bytes → Bytes × Bytes
unfolding is_key_char
bare_key [] = ([], [])
bare_key (c ∷ s) =
    let more = with_char c (bare_key s) in if is_key_char c then more else ([], c ∷ s)

-- A backslash that is not the last character goes, and what is behind it is taken as it is.
unfoldable pub quoted_value : Bytes → Bytes × Bytes
quoted_value [] = ([], [])
quoted_value (c ∷ []) = if c == b'"' then ([], []) else (c ∷ [], [])
quoted_value (c ∷ d ∷ s) =
    let plain = with_char c (quoted_value (d ∷ s)) in
    let escaped = with_char d (quoted_value s) in
    if c == b'"' then ([], d ∷ s) else if c == 92 then escaped else plain

unfoldable pub bare_value : Bytes → Bytes × Bytes
bare_value [] = ([], [])
bare_value (c ∷ s) =
    let more = with_char c (bare_value s) in
    if c == b',' || c == b'}' || c == 10 then ([], c ∷ s) else more

-- One character, if it is there.
unfoldable pub skip_char : ℕ → Bytes → Bytes
skip_char p [] = []
skip_char p (c ∷ s) = if c == p then s else c ∷ s

unfoldable pub key_at : Bytes → Bytes × Bytes
key_at [] = ([], [])
key_at (c ∷ s) = if c == b'"' then quoted_key s else bare_key (c ∷ s)

unfoldable pub value_at : Bytes → Bytes × Bytes
value_at [] = ([], [])
value_at (c ∷ s) = if c == b'"' then quoted_value s else bare_value (c ∷ s)

-- The value behind a key, and the rest behind the comma.
unfoldable pub after_key : Bytes → Bytes × Bytes
after_key s =
    let value = value_at (skip_ws (skip_char b':' (skip_ws s))) in
    (value.0, skip_char b',' (skip_ws value.1))

-- One round of the loop: the key, the value and the rest.
unfoldable pub entry : Bytes → Bytes × Bytes × Bytes
entry s = let key = key_at s in let value = after_key key.1 in (key.0, value.0, value.1)

unfoldable pub store : Bytes → Bytes → Values → Values
unfolding is_empty put_value trim
store key value out = if is_empty key then out else put_value key (trim value) out

unfoldable pub parse_entries : ℕ → Bytes → Values → Values
parse_entries zero s out = out
parse_entries (suc fuel) s out = elim (skip_ws s) [
  | [] ↦ out
  | (c ∷ rest) ↦
      let e = entry (c ∷ rest) in
      let more = parse_entries fuel (e.2) (store e.0 e.1 out) in if c == b'}' then out else more
]

-- The values of a text; those of a file that cannot be read are none.
unfoldable pub parse_text : Bytes → Values
parse_text s = elim (skip_ws s) [
  | [] ↦ []
  | (c ∷ rest) ↦ if c == b'{' then parse_entries (suc (length rest)) rest [] else []
]

unfoldable pub parse_config : Option Bytes → Values
unfolding parse_text
parse_config none = []
parse_config (some text_) = parse_text text_
