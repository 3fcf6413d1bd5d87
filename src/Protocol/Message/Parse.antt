-- ===== src/Protocol/Message/Parse.antt =====
-- The scanner on the pieces of a control message.
use github_codespaces_proxy.Base.{
  ℕ, suc, ◌+◌, ◌/◌, ◌%◌, ◌<◌, ◌≡◌, refl, true, false, some, [], ◌∷◌, ◌++◌, arith, ltb, Bytes, All,
  length, Bool-cases, inl, inr, is_digit, length-append, to_string, to_string_digits,
  to_string_small, to_string_large,
}
use github_codespaces_proxy.Protocol.Json.{
  json_escape, eat, peek, skip_ws, number_text, number_span, is_number_char, Doubles, JsonValue,
  JsonObject, insert, text_value, number_value, value, member, members, parse_object,
}
use github_codespaces_proxy.Protocol.Json.Strings.{string-json_escape}

-- What may follow a number.
abbrev pub Stops : Bytes → Type 0
Stops [] = Unit {0}
Stops (c ∷ cs) = is_number_char c ≡ false

number_span-digits :
    (ds rest : Bytes)
    → All (λ c. is_digit c ≡ true) ds
    → Stops rest
    → number_span (ds ++ rest) ≡ (ds, rest)
unfolding number_span is_number_char
number_span-digits [] [] h s = refl
number_span-digits [] (c ∷ cs) h s = rw s refl
number_span-digits (d ∷ ds) rest h s = rw (number_span-digits ds rest h.1 s, h.0) refl

-- A digit first, and more.
pub data Digits : Bytes → Type 0 where
  digits :
      (d : ℕ) (ds : Bytes) → is_digit d ≡ true → All (λ c. is_digit c ≡ true) ds → Digits (d ∷ ds)

Digits-of : (xs : Bytes) → 0 < length xs → All (λ c. is_digit c ≡ true) xs → Digits xs
Digits-of [] h a = absurd (omega arith)
Digits-of (d ∷ ds) h a = digits d ds a.0 a.1

to_string-length : (n : ℕ) → 0 < length (to_string n)
to_string-length n = elim (Bool-cases (ltb n 10)) [
  | inl e ↦ rw (to_string_small n (ground arith)) (omega arith)
  | inr e ↦
      rw (to_string_large n (ground arith))
        (omega (arith, length-append (to_string (n / 10)) ((b'0' + n % 10) ∷ [])))
]

pub to_string-Digits : (n : ℕ) → Digits (to_string n)
to_string-Digits n = Digits-of (to_string n) (to_string-length n) (to_string_digits n)

module _ (dbl : Doubles) where
  open dbl use {Double}

  value-Digits :
      {xs : Bytes} (rest : Bytes)
      → Digits xs
      → Stops rest
      → value dbl (xs ++ rest) ≡ some (number_value dbl xs, rest)
  unfolding value number_text peek is_digit
  value-Digits rest (digits d ds h a) s =
      rw (number_span-digits ds rest a s)
        (ground (arith, number_span-digits (d ∷ ds) rest (h, a) s))

  skip_ws-Digits : {xs : Bytes} (rest : Bytes) → Digits xs → skip_ws (xs ++ rest) ≡ xs ++ rest
  unfolding skip_ws is_digit
  skip_ws-Digits rest (digits d ds h a) = ground arith

  pub member-number :
      (k : Bytes) {xs : Bytes} (rest : Bytes)
      → Digits xs
      → Stops rest
      → member dbl (b'"' ∷ (json_escape k ++ b'"' ∷ b':' ∷ (xs ++ rest)))
        ≡ some (k, number_value dbl xs, rest)
  unfolding member skip_ws eat
  member-number k {xs} rest h s =
      rw (string-json_escape k (b':' ∷ (xs ++ rest)), skip_ws-Digits rest h, value-Digits rest h s)
        refl

  value-string :
      (v rest : Bytes)
      → value dbl (b'"' ∷ (json_escape v ++ b'"' ∷ rest)) ≡ some (text_value dbl v, rest)
  unfolding value peek
  value-string v rest = rw (string-json_escape v rest) refl

  pub member-string :
      (k v rest : Bytes)
      → member dbl (b'"' ∷ (json_escape k ++ b'"' ∷ b':' ∷ b'"' ∷ (json_escape v ++ b'"' ∷ rest)))
        ≡ some (k, text_value dbl v, rest)
  unfolding member skip_ws eat
  member-string k v rest =
      rw (string-json_escape k (b':' ∷ b'"' ∷ (json_escape v ++ b'"' ∷ rest)), value-string v rest)
        refl

  -- A member with a comma behind it, and the last one.
  pub members-more :
      (f : ℕ) (s more : Bytes) (k : Bytes) (v : JsonValue Double) (out : JsonObject Double)
      → member dbl s ≡ some (k, v, b',' ∷ more)
      → members dbl (suc f) s out ≡ members dbl f more (insert k v out)
  unfolding members skip_ws eat
  members-more f s more k v out h = ground arith

  pub members-last :
      (f : ℕ) (s more : Bytes) (k : Bytes) (v : JsonValue Double) (out : JsonObject Double)
      → member dbl s ≡ some (k, v, b'}' ∷ more)
      → members dbl (suc f) s out ≡ some (insert k v out)
  unfolding members skip_ws eat
  members-last f s more k v out h = ground arith

  pub parse_object-members :
      (s : Bytes)
      → parse_object dbl (b'{' ∷ b'"' ∷ s) ≡ members dbl (suc (suc (length s))) (b'"' ∷ s) []
  unfolding parse_object skip_ws eat
  parse_object-members s = refl
