-- ===== src/Updater/Json/Parser/Left.antt =====
-- What the parts of `JsonParser` leave of the text.
use github_codespaces_proxy.Base.{
  ℕ, zero, suc, ◌+◌, ◌*◌, ◌≤◌, ◌<◌, Bool, true, false, Option, none, some, ◌||◌, [], ◌∷◌, ◌++◌,
  arith, ◌==◌, if◌then◌else◌, Bytes, codes, is_digit, starts_with, hex_value, drop, length,
  length-drop,
}
use github_codespaces_proxy.Client.Url.{skip_blanks}
use github_codespaces_proxy.Updater.Json.{
  JVal, nul, str, boolean, arr, obj, JVals, no_vals, Members, no_members,
}
use github_codespaces_proxy.Updater.Json.Strings.{
  utf8, hex_number, escape_at, string_from, parse_str, number_from,
}
use github_codespaces_proxy.Updater.Json.Parser.{
  separator, key_colon, unless_closed, as_val, value_at,
}

-- What is left is no longer than so much.
pub data IsWithin {ℓ} {A : Type ℓ} (n : ℕ) : Option (A × Bytes) → Type ℓ where
  fails : IsWithin n none
  leaves : (a : A) (rest : Bytes) → length rest ≤ n → IsWithin n (some (a, rest))

module _ {ℓ} {A : Type ℓ} where
  pub IsWithin-if :
      (n : ℕ) (b : Bool) (x y : Option (A × Bytes))
      → IsWithin n x
      → IsWithin n y
      → IsWithin n (if b then x else y)
  IsWithin-if n true x y h k = h
  IsWithin-if n false x y h k = k

  pub IsWithin-le : (m n : ℕ) (o : Option (A × Bytes)) → m ≤ n → IsWithin m o → IsWithin n o
  IsWithin-le m n _ l fails = fails
  IsWithin-le m n _ l (leaves a rest h) = leaves a rest (omega arith)

  pub bind-IsWithin {κ} :
      {B : Type κ} (m n : ℕ) (o : Option (A × Bytes)) (k : A → Bytes → Option (B × Bytes))
      → IsWithin m o
      → ((a : A) (rest : Bytes) → length rest ≤ m → IsWithin n (k a rest))
      → let r : Option (B × Bytes) = elim o [ none ↦ none | some (a, rest) ↦ k a rest ] in
        IsWithin n r
  bind-IsWithin m n _ k fails h = fails
  bind-IsWithin m n _ k (leaves a rest l) h = h a rest l

pub skip_blanks-length : (s : Bytes) → length (skip_blanks s) ≤ length s
unfolding skip_blanks
skip_blanks-length [] = omega arith
skip_blanks-length (c ∷ s) = let h = skip_blanks-length s in ground arith

bind_value-IsWithin {ℓ} :
    {A : Type ℓ} {B : Type 0} (n : ℕ) (o : Option B) (k : B → Option (A × Bytes))
    → ((b : B) → IsWithin n (k b))
    → let r : Option (A × Bytes) = elim o [ none ↦ none | some b ↦ k b ] in IsWithin n r
bind_value-IsWithin n none k h = fails
bind_value-IsWithin n (some b) k h = h b

hex_number-IsWithin : (k cp : ℕ) (s : Bytes) → IsWithin (length s) (hex_number k cp s)
unfolding hex_number
hex_number-IsWithin zero cp s = leaves cp s (omega arith)
hex_number-IsWithin (suc k) cp [] = fails
hex_number-IsWithin (suc k) cp (h ∷ s) = bind_value-IsWithin (suc (length s)) (hex_value h) _ (λ v.
    IsWithin-le (length s) (suc (length s)) _ (omega arith) (hex_number-IsWithin k (cp * 16 + v) s))

escape_at-IsWithin : (s : Bytes) → IsWithin (length s) (escape_at s)
unfolding escape_at
escape_at-IsWithin [] = fails
escape_at-IsWithin (e ∷ s) =
    IsWithin-if _ (e == b'u') _ _
      (bind-IsWithin (length s) (suc (length s)) (hex_number 4 0 s) _ (hex_number-IsWithin 4 0 s)
        (λ cp rest l. leaves (utf8 cp) rest (omega arith)))
      (leaves _ s (omega arith))

string_from-IsWithin : (fuel : ℕ) (out s : Bytes) → IsWithin (length s) (string_from fuel out s)
unfolding string_from
string_from-IsWithin zero out s = fails
string_from-IsWithin (suc fuel) out [] = fails
string_from-IsWithin (suc fuel) out (c ∷ s) =
    IsWithin-if _ (c == b'"') _ _ (leaves out s (omega arith)) (
      IsWithin-if _ (c == 92) _ _
        (bind-IsWithin (length s) (suc (length s)) (escape_at s) _ (escape_at-IsWithin s)
          (λ added rest l.
            IsWithin-le (length rest) (suc (length s)) _ (omega arith)
              (string_from-IsWithin fuel (out ++ added) rest)))
        (IsWithin-le (length s) (suc (length s)) _ (omega arith)
          (string_from-IsWithin fuel (out ++ c ∷ []) s)))

parse_str-IsWithin : (s : Bytes) → IsWithin (length s) (parse_str s)
unfolding parse_str
parse_str-IsWithin s = string_from-IsWithin (suc (length s)) [] s

number_from-length : (s : Bytes) → length (number_from s).1 ≤ length s
unfolding number_from
number_from-length [] = omega arith
number_from-length (c ∷ s) = let h = number_from-length s in ground arith

-- What is left behind a separator or a key is shorter.
pub data IsShorter {ℓ} {A : Type ℓ} (n : ℕ) : Option (A × Bytes) → Type ℓ where
  fails_too : IsShorter n none
  takes : (a : A) (rest : Bytes) → length rest < n → IsShorter n (some (a, rest))

IsShorter-if {ℓ} :
    {A : Type ℓ} (n : ℕ) (b : Bool) (x y : Option (A × Bytes))
    → IsShorter n x
    → IsShorter n y
    → IsShorter n (if b then x else y)
IsShorter-if n true x y h k = h
IsShorter-if n false x y h k = k

separator-cases :
    (close n : ℕ) (t : Bytes)
    → length t ≤ n
    → let r : Option (Bool × Bytes) = elim t [
      | [] ↦ none
      | (c ∷ rest) ↦
          if c == b',' then some (true, rest) else if c == close then some (false, rest) else none
    ] in
      IsShorter n r
separator-cases close n [] h = fails_too
separator-cases close n (c ∷ rest) h =
    IsShorter-if n (c == b',') _ _ (takes true rest (omega arith))
      (IsShorter-if n (c == close) _ _ (takes false rest (omega arith)) fails_too)

pub separator-IsShorter : (close : ℕ) (s : Bytes) → IsShorter (length s) (separator close s)
unfolding separator
separator-IsShorter close s =
    separator-cases close (length s) (skip_blanks s) (skip_blanks-length s)

colon-cases :
    (n : ℕ) (key t : Bytes)
    → length t ≤ n
    → let r : Option (Bytes × Bytes) = elim t [
      | [] ↦ none
      | (c ∷ left) ↦ if c == b':' then some (key, left) else none
    ] in
      IsShorter n r
colon-cases n key [] h = fails_too
colon-cases n key (c ∷ left) h =
    IsShorter-if n (c == b':') _ _ (takes key left (omega arith)) fails_too

bind-IsShorter {ℓ κ} :
    {A : Type ℓ} {B : Type κ} (m n : ℕ) (o : Option (A × Bytes))
    (k : A → Bytes → Option (B × Bytes))
    → IsWithin m o
    → ((a : A) (rest : Bytes) → length rest ≤ m → IsShorter n (k a rest))
    → let r : Option (B × Bytes) = elim o [ none ↦ none | some (a, rest) ↦ k a rest ] in
      IsShorter n r
bind-IsShorter m n _ k fails h = fails_too
bind-IsShorter m n _ k (leaves a rest l) h = h a rest l

quote-cases :
    (n : ℕ) (t : Bytes)
    → length t ≤ n
    → let r : Option (Bytes × Bytes) = elim t [
      | [] ↦ none
      | (q ∷ rest) ↦
          let parsed : Option (Bytes × Bytes) = elim (parse_str rest) [
            | none ↦ none
            | some (key, behind) ↦ elim (skip_blanks behind) [
              | [] ↦ none
              | (c ∷ left) ↦ if c == b':' then some (key, left) else none
            ]
          ] in
          if q == b'"' then parsed else none
    ] in
      IsShorter n r
quote-cases n [] h = fails_too
quote-cases n (q ∷ rest) h =
    IsShorter-if n (q == b'"') _ _
      (bind-IsShorter (length rest) n (parse_str rest) _ (parse_str-IsWithin rest) (λ key behind l.
        colon-cases n key (skip_blanks behind) (let b = skip_blanks-length behind in omega arith)))
      fails_too

pub key_colon-IsShorter : (s : Bytes) → IsShorter (length s) (key_colon s)
unfolding key_colon
key_colon-IsShorter s = quote-cases (length s) (skip_blanks s) (skip_blanks-length s)

closed-cases {ℓ} :
    {A : Type ℓ} (n close : ℕ) (empty : A) (more : Bytes → Option (A × Bytes)) (t : Bytes)
    → ((u : Bytes) → length u ≤ n → IsWithin n (more u))
    → length t ≤ n
    → let r : Option (A × Bytes) = elim t [
      | [] ↦ more []
      | (c ∷ rest) ↦ if c == close then some (empty, rest) else more (c ∷ rest)
    ] in
      IsWithin n r
closed-cases n close empty more [] k h = k [] h
closed-cases n close empty more (c ∷ rest) k h =
    IsWithin-if n (c == close) _ _ (leaves empty rest (omega arith)) (k (c ∷ rest) h)

pub unless_closed-IsWithin {ℓ} :
    {A : Type ℓ} (close : ℕ) (empty : A) (more : Bytes → Option (A × Bytes)) (s : Bytes)
    → ((u : Bytes) → length u ≤ length s → IsWithin (length s) (more u))
    → IsWithin (length s) (unless_closed close empty more s)
unfolding unless_closed
unless_closed-IsWithin close empty more s k =
    closed-cases (length s) close empty more (skip_blanks s) k (skip_blanks-length s)

pub as_val-IsWithin {ℓ} :
    {A : Type ℓ} (n : ℕ) (make : A → JVal) (o : Option (A × Bytes))
    → IsWithin n o
    → IsWithin n (as_val make o)
unfolding as_val
as_val-IsWithin n make _ fails = fails
as_val-IsWithin n make _ (leaves a rest l) = leaves (make a) rest l

drop-leaves : (v : JVal) (k : ℕ) (s : Bytes) → IsWithin (length s) (some (v, drop k s))
drop-leaves v k s = leaves v (drop k s) (let l = length-drop k s in omega arith)

pub value_at-IsWithin :
    (members : Bytes → Option (Members × Bytes)) (elements : Bytes → Option (JVals × Bytes))
    (s : Bytes)
    → ((u : Bytes) → IsWithin (length u) (members u))
    → ((u : Bytes) → IsWithin (length u) (elements u))
    → IsWithin (length s) (value_at members elements s)
unfolding value_at
value_at-IsWithin members elements [] h k = fails
value_at-IsWithin members elements (c ∷ s) h k =
    let n = suc (length s) in
    IsWithin-if n (c == b'{') _ _
      (as_val-IsWithin n obj _ (
        IsWithin-le (length s) n _ (omega arith) (
          unless_closed-IsWithin b'}' no_members members s
            (λ u l. IsWithin-le (length u) (length s) _ l (h u)))))
      (IsWithin-if n (c == b'[') _ _
        (as_val-IsWithin n arr _ (
          IsWithin-le (length s) n _ (omega arith) (
            unless_closed-IsWithin b']' no_vals elements s
              (λ u l. IsWithin-le (length u) (length s) _ l (k u)))))
        (IsWithin-if n (c == b'"') _ _
          (as_val-IsWithin n str _
            (IsWithin-le (length s) n _ (omega arith) (parse_str-IsWithin s)))
          (IsWithin-if n (c == b't' || c == b'f') _ _
            (IsWithin-if n (starts_with (codes "true") (c ∷ s)) _ _
              (drop-leaves (boolean true) 4 (c ∷ s))
              (IsWithin-if n (starts_with (codes "false") (c ∷ s)) _ _
                (drop-leaves (boolean false) 5 (c ∷ s)) fails))
            (IsWithin-if n (c == b'n') _ _ (drop-leaves nul 4 (c ∷ s)) (
              IsWithin-if n (c == b'-' || is_digit c) _ _ (leaves _ _ (number_from-length (c ∷ s)))
                fails)))))
