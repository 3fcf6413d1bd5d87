-- ===== src/Protocol/Json.antt =====
-- The JSON of src/common/protocol.cpp: `jsonEscape` and `Scanner`. The scanner's index is the text
-- that is not read; each of its functions returns that, or `none` where the code returns false.
-- `double` is a type of the model's environment: the code reads one by `strtod` and casts it.
pub mod Strings
pub mod Skip
use mathlib.Core.Option
use github_codespaces_proxy.Base.{
  ℕ, zero, suc, ◌+◌, ◌*◌, ◌-◌, ◌/◌, ◌%◌, ◌^◌, ◌<◌, ◌≡◌, Bool, true, false, Option, none, some, ◌||◌,
  ◌&&◌, not, List, [], ◌∷◌, ◌++◌, ltb, leb, ◌==◌, if◌then◌else◌, Bytes, length, take, drop,
  is_digit, is_space, is_empty, hex_digit, hex_value, text_eq, codes,
}

infixl 5 ◌>>=◌
abbrev pub ◌>>=◌ {ℓ κ} : {A : Type ℓ} {B : Type κ} → Option A → (A → Option B) → Option B
none >>= f = none
some a >>= f = f a

-- What one byte of a string becomes.
unfoldable pub escape_byte : ℕ → Bytes
escape_byte c =
    if c == b'"'
    then codes "\\\""
    else if c == b'\\'
    then codes "\\\\"
    else if c == b'\n'
    then codes "\\n"
    else if c == b'\r'
    then codes "\\r"
    else if c == b'\t'
    then codes "\\t"
    else if c == 8
    then codes "\\b"
    else if c == 12
    then codes "\\f"
    else if ltb c 0x20
    then b'\\' ∷ b'u' ∷ b'0' ∷ b'0' ∷ hex_digit (c / 16) ∷ hex_digit (c % 16) ∷ []
    else c ∷ []

unfoldable pub json_escape : Bytes → Bytes
json_escape [] = []
json_escape (c ∷ cs) = escape_byte c ++ json_escape cs

unfoldable pub skip_ws : Bytes → Bytes
unfolding is_space
skip_ws [] = []
skip_ws (c ∷ cs) = let rest = skip_ws cs in if is_space c then rest else c ∷ cs

-- '\0' at the end.
unfoldable pub peek : Bytes → ℕ
peek [] = 0
peek (c ∷ cs) = c

unfoldable pub eat : ℕ → Bytes → Option Bytes
eat c [] = none
eat c (x ∷ xs) = if x == c then some xs else none

-- A code point of the basic plane as UTF-8; half of a surrogate pair is replaced.
unfoldable pub utf8 : ℕ → Bytes
utf8 code =
    if ltb code 0x80
    then code ∷ []
    else if ltb code 0x800
    then (0xC0 + code / 64) ∷ (0x80 + code % 64) ∷ []
    else if leb 0xD800 code && leb code 0xDFFF
    then b'?' ∷ []
    else (0xE0 + code / 4096) ∷ (0x80 + code / 64 % 64) ∷ (0x80 + code % 64) ∷ []

-- Four hexadecimal digits behind `\u`.
unfoldable pub unicode : Bytes → Option (Bytes × Bytes)
unfolding hex_value utf8
unicode (a ∷ b ∷ c ∷ d ∷ rest) = do
  a' ← hex_value a
  b' ← hex_value b
  c' ← hex_value c
  d' ← hex_value d
  some (utf8 (((a' * 16 + b') * 16 + c') * 16 + d'), rest)
unicode _ = none

-- What an escape stands for, by the character behind the backslash.
unfoldable pub escaped : ℕ → Bytes → Option (Bytes × Bytes)
escaped e rest =
    if e == b'n'
    then some (b'\n' ∷ [], rest)
    else if e == b't'
    then some (b'\t' ∷ [], rest)
    else if e == b'r'
    then some (b'\r' ∷ [], rest)
    else if e == b'b'
    then some (8 ∷ [], rest)
    else if e == b'f'
    then some (12 ∷ [], rest)
    else if e == b'u'
    then unicode rest
    else some (e ∷ [], rest)

-- A character of a string, an escape or a plain one; `none` for a bad escape. A backslash that is
-- the last character stands for itself.
unfoldable pub string_char : ℕ → Bytes → Option (Bytes × Bytes)
string_char c [] = some (c ∷ [], [])
string_char c (e ∷ rest) = if c == b'\\' then escaped e rest else some (c ∷ [], e ∷ rest)

-- The loop of `string` behind the opening quote. Each round reads a character at least.
unfoldable pub string_loop : ℕ → Bytes → Bytes → Option (Bytes × Bytes)
string_loop zero s out = none
string_loop (suc fuel) [] out = none
string_loop (suc fuel) (c ∷ cs) out = elim (c == b'"') [
  | true ↦ some (out, cs)
  | false ↦ elim (string_char c cs) [
    | none ↦ none
    | some (bytes, rest) ↦ string_loop fuel rest (out ++ bytes)
  ]
]

unfoldable pub string : Bytes → Option (Bytes × Bytes)
string s = do rest ← eat b'"' s; string_loop (suc (length rest)) rest []

unfoldable pub is_number_char : ℕ → Bool
is_number_char c = is_digit c || c == b'.' || c == b'e' || c == b'E' || c == b'+' || c == b'-'

-- The digits and signs at the front, and the rest.
unfoldable pub number_span : Bytes → Bytes × Bytes
number_span [] = ([], [])
number_span (c ∷ cs) =
    let more = number_span cs in if is_number_char c then (c ∷ more.0, more.1) else ([], c ∷ cs)

-- The text that `number` hands to `strtod`.
unfoldable pub number_text : Bytes → Bytes × Bytes
number_text [] = ([], [])
number_text (c ∷ cs) =
    if c == b'-' then (let more = number_span cs in (c ∷ more.0, more.1)) else number_span (c ∷ cs)

-- The loop of `skipValue` at the given depth.
unfoldable pub skip_loop : ℕ → ℕ → Bytes → Option Bytes
skip_loop zero depth s = none
skip_loop (suc fuel) depth [] = if depth == 0 then some [] else none
skip_loop (suc fuel) depth (c ∷ cs) = elim (c == b'"') [
  | true ↦ elim (string (c ∷ cs)) [ none ↦ none | some (_, rest) ↦ skip_loop fuel depth rest ]
  | false ↦ elim (c == b'{' || c == b'[') [
    | true ↦ skip_loop fuel (depth + 1) cs
    | false ↦ elim (c == b'}' || c == b']') [
      | true ↦ elim (leb depth 1) [ true ↦ some cs | false ↦ skip_loop fuel (depth - 1) cs ]
      | false ↦ elim (depth == 0 && (c == b',' || c == b'}')) [
        | true ↦ some (c ∷ cs)
        | false ↦ skip_loop fuel depth cs
      ]
    ]
  ]
]

unfoldable pub skip_value : Bytes → Option Bytes
skip_value s =
    if peek s == b'"'
    then (elim (string s) [ none ↦ none | some (_, rest) ↦ some rest ])
    else skip_loop (suc (length s)) 0 s

-- `double`: the zero of a fresh value, `strtod` and the casts that the callers make.
pub record Doubles : Type 1 where
  pub Double : Type 0
  pub zero_value : Double
  pub strtod : Bytes → Double
  pub to_u32 : Double → ℕ
  pub to_u16 : Double → ℕ

pub record JsonValue (D : Type 0) : Type 0 where
  pub is_string : Bool
  pub is_number : Bool
  pub str : Bytes
  pub num : D

-- An unordered map as an association list: a key stands once.
abbrev pub JsonObject : Type 0 → Type 0
JsonObject D = List (Bytes × JsonValue D)

unfoldable pub lookup {ℓ} : {V : Type ℓ} → Bytes → List (Bytes × V) → Option V
lookup k [] = none
lookup k ((j, v) ∷ m) = if text_eq j k then some v else lookup k m

unfoldable pub insert {ℓ} : {V : Type ℓ} → Bytes → V → List (Bytes × V) → List (Bytes × V)
insert k v [] = (k, v) ∷ []
insert k v ((j, w) ∷ m) = if text_eq j k then (k, v) ∷ m else (j, w) ∷ insert k v m

module _ (dbl : Doubles) where
  open dbl use {Double, zero_value, strtod}

  abbrev pub text_value : Bytes → JsonValue Double
  text_value s = record { is_string = true; is_number = false; str = s; num = zero_value }

  abbrev pub number_value : Bytes → JsonValue Double
  number_value s = record { is_string = false; is_number = true; str = []; num = strtod s }

  abbrev pub other_value : JsonValue Double
  other_value = record { is_string = false; is_number = false; str = []; num = zero_value }

  -- A string, a number, or anything else, which is skipped.
  unfoldable pub value : Bytes → Option (JsonValue Double × Bytes)
  value s =
      if peek s == b'"'
      then (elim (string s) [ none ↦ none | some (v, rest) ↦ some (text_value v, rest) ])
      else if peek s == b'-' || is_digit (peek s)
      then (let n = number_text s in some (number_value n.0, n.1))
      else (elim (skip_value s) [ none ↦ none | some rest ↦ some (other_value, rest) ])

  -- One key with its value.
  unfoldable pub member : Bytes → Option (Bytes × JsonValue Double × Bytes)
  member s = do
    (key, rest) ← string (skip_ws s)
    rest' ← eat b':' (skip_ws rest)
    (v, rest'') ← value (skip_ws rest')
    some (key, v, rest'')

  unfoldable pub members : ℕ → Bytes → JsonObject Double → Option (JsonObject Double)
  members zero s out = none
  members (suc fuel) s out = elim (member s) [
    | none ↦ none
    | some (key, v, rest) ↦ elim (eat b',' (skip_ws rest)) [
      | some more ↦ members fuel more (insert key v out)
      | none ↦ elim (eat b'}' (skip_ws rest)) [ none ↦ none | some _ ↦ some (insert key v out) ]
    ]
  ]

  unfoldable pub parse_object : Bytes → Option (JsonObject Double)
  parse_object s = do
    rest ← eat b'{' (skip_ws s)
    elim (eat b'}' (skip_ws rest)) [
      | some _ ↦ some []
      | none ↦ members (suc (length rest)) (skip_ws rest) []
    ]

  unfoldable pub check_type : JsonObject Double → Option (JsonObject Double)
  check_type obj = elim (lookup (codes "type") obj) [
    | none ↦ none
    | some v ↦ if not v.is_string || is_empty v.str then none else some obj
  ]

  unfoldable pub parse_control_message : Bytes → Option (JsonObject Double)
  parse_control_message text = do obj ← parse_object text; check_type obj
