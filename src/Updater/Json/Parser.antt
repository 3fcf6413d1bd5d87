-- ===== src/Updater/Json/Parser.antt =====
-- `JsonParser` and `jsonParse`.
pub mod Left
pub mod Rounds
pub mod Enough
use github_codespaces_proxy.Base.{
  ℕ, zero, suc, ◌+◌, ◌*◌, Bool, true, false, Option, none, some, ◌||◌, [], ◌∷◌, ◌==◌, if◌then◌else◌,
  Bytes, codes, is_digit, starts_with, drop, length,
}
use github_codespaces_proxy.Client.Url.{skip_blanks}
use github_codespaces_proxy.Updater.Json.{
  JVal, nul, str, num, boolean, arr, obj, JVals, no_vals, more_vals, Members, no_members,
  put_member,
}
use github_codespaces_proxy.Updater.Json.Strings.{parse_str, number_from}

-- The next character behind the blanks: a comma, with more to come, or the closing one.
unfoldable pub separator : ℕ → Bytes → Option (Bool × Bytes)
unfolding skip_blanks
separator close s = elim (skip_blanks s) [
  | [] ↦ none
  | (c ∷ rest) ↦
      if c == b',' then some (true, rest) else if c == close then some (false, rest) else none
]

-- The key of a member, and what is behind its colon.
unfoldable pub key_colon : Bytes → Option (Bytes × Bytes)
unfolding skip_blanks
key_colon s = elim (skip_blanks s) [
  | [] ↦ none
  | (q ∷ rest) ↦
      let parsed : Option (Bytes × Bytes) = elim (parse_str rest) [
        | none ↦ none
        | some (key, behind) ↦ elim (skip_blanks behind) [
          | [] ↦ none
          | (c ∷ left) ↦ if c == b':' then some (key, left) else none
        ]
      ] in
      if q == b'"' then parsed else none
]

-- An object or an array, unless it closes at once.
unfoldable pub unless_closed {ℓ} :
    {A : Type ℓ} → ℕ → A → (Bytes → Option (A × Bytes)) → Bytes → Option (A × Bytes)
unfolding skip_blanks
unless_closed close empty more s = elim (skip_blanks s) [
  | [] ↦ more []
  | (c ∷ rest) ↦ if c == close then some (empty, rest) else more (c ∷ rest)
]

unfoldable pub as_val {ℓ} : {A : Type ℓ} → (A → JVal) → Option (A × Bytes) → Option (JVal × Bytes)
as_val make none = none
as_val make (some (a, rest)) = some (make a, rest)

unfoldable pub push_val : JVal → JVals → JVals
push_val val no_vals = more_vals val no_vals
push_val val (more_vals v rest) = more_vals v (push_val val rest)

-- A value that begins at a character, given the parsers of members and elements.
unfoldable pub value_at :
    (Bytes → Option (Members × Bytes))
    → (Bytes → Option (JVals × Bytes))
    → Bytes
    → Option (JVal × Bytes)
value_at members elements [] = none
value_at members elements (c ∷ s) =
    if c == b'{'
    then as_val obj (unless_closed b'}' no_members members s)
    else if c == b'['
    then as_val arr (unless_closed b']' no_vals elements s)
    else if c == b'"'
    then as_val str (parse_str s)
    else if c == b't' || c == b'f'
    then (if starts_with (codes "true") (c ∷ s)
        then some (boolean true, drop 4 (c ∷ s))
        else if starts_with (codes "false") (c ∷ s)
        then some (boolean false, drop 5 (c ∷ s))
        else none)
    else if c == b'n'
    then some (nul, drop 4 (c ∷ s))
    else if c == b'-' || is_digit c
    then some (num (number_from (c ∷ s)).0, (number_from (c ∷ s)).1)
    else none

-- The result when the rounds are spent: a failure, or as if this text were left. `json_parse` takes the
-- failure.
unfoldable pub when_spent {ℓ} : {A : Type ℓ} → A → Option Bytes → Option (A × Bytes)
when_spent a none = none
when_spent a (some left) = some (a, left)

unfoldable mutual
  pub parse_val : Option Bytes → ℕ → Bytes → Option (JVal × Bytes)
  parse_val spent zero s = when_spent nul spent
  parse_val spent (suc fuel) s =
      value_at (parse_members spent fuel no_members) (parse_elements spent fuel no_vals)
        (skip_blanks s)

  pub parse_members : Option Bytes → ℕ → Members → Bytes → Option (Members × Bytes)
  parse_members spent zero o s = when_spent o spent
  parse_members spent (suc fuel) o s = elim (key_colon s) [
    | none ↦ none
    | some (key, rest) ↦ elim (parse_val spent fuel rest) [
      | none ↦ none
      | some (val, behind) ↦ elim (separator b'}' behind) [
        | none ↦ none
        | some (more, left) ↦ elim more [
          | true ↦ parse_members spent fuel (put_member key val o) left
          | false ↦ some (put_member key val o, left)
        ]
      ]
    ]
  ]

  pub parse_elements : Option Bytes → ℕ → JVals → Bytes → Option (JVals × Bytes)
  parse_elements spent zero a s = when_spent a spent
  parse_elements spent (suc fuel) a s = elim (parse_val spent fuel s) [
    | none ↦ none
    | some (val, behind) ↦ elim (separator b']' behind) [
      | none ↦ none
      | some (more, left) ↦ elim more [
        | true ↦ parse_elements spent fuel (push_val val a) left
        | false ↦ some (push_val val a, left)
      ]
    ]
  ]

-- Two rounds for each character at most.
unfoldable pub json_parse : Bytes → Option JVal
json_parse s = elim (parse_val none (2 * length s + 2) s) [ none ↦ none | some (v, rest) ↦ some v ]
