-- ===== src/Client/Url/Ports.antt =====
-- A port as decimal text, read back by `std::stoi` and the cast.
use github_codespaces_proxy.Base.{
  ℕ, zero, suc, ◌+◌, ◌*◌, ◌-◌, ◌/◌, ◌%◌, ◌^◌, ◌<◌, ◌≡◌, refl, subst, ◌∙◌, true, some, [], ◌∷◌, ◌++◌,
  arith, ltb, inl, inr, Bool-cases, Bytes, All, is_digit, is_space, to_string, to_string_small,
  to_string_large, to_string_digits,
}
use github_codespaces_proxy.Client.Url.{
  digits_value, unsigned_port, signed_port, skip_blanks, port_of,
}

digits_value-append :
    (n : ℕ) (s : Bytes) (d : ℕ)
    → All (λ c. is_digit c ≡ true) s
    → is_digit d ≡ true
    → digits_value n (s ++ d ∷ []) ≡ digits_value n s * 10 + (d - b'0')
unfolding digits_value
digits_value-append n [] d h e = rw (digits_value, e) refl
digits_value-append n (c ∷ s) d h e =
    rw (digits_value, h.0) (digits_value-append (n * 10 + (c - b'0')) s d h.1 e)

digit-of : (n : ℕ) → n < 10 → is_digit (b'0' + n) ≡ true
unfolding is_digit
digit-of n h = ground arith

digits_value-to_string_fuel : (f n : ℕ) → n < f → digits_value 0 (to_string n) ≡ n
unfolding digits_value
digits_value-to_string_fuel zero n h = absurd (omega arith)
digits_value-to_string_fuel (suc f) n h = elim (Bool-cases (ltb n 10)) [
  | inl e ↦
      rw (to_string_small n (ground arith))
        (digits_value-append 0 [] (b'0' + n) tt (digit-of n (ground arith)) ∙ omega arith)
  | inr e ↦ rw (to_string_large n (ground arith)) (
      digits_value-append 0 (to_string (n / 10)) (b'0' + n % 10) (to_string_digits (n / 10))
        (digit-of (n % 10) (omega arith))
      ∙ ground (arith, digits_value-to_string_fuel f (n / 10)))
]

pub digits_value-to_string : (n : ℕ) → digits_value 0 (to_string n) ≡ n
digits_value-to_string n = digits_value-to_string_fuel (suc n) n (omega arith)

pub data IsDigits (s : Bytes) : Type 0 where
  digits : (d : ℕ) (ds : Bytes) → s ≡ d ∷ ds → is_digit d ≡ true → IsDigits s

append-IsDigits :
    (s : Bytes) (d : ℕ) → All (λ c. is_digit c ≡ true) (s ++ d ∷ []) → IsDigits (s ++ d ∷ [])
append-IsDigits [] d h = digits d [] refl h.0
append-IsDigits (c ∷ s) d h = digits c (s ++ d ∷ []) refl h.0

-- The text of a number begins with a digit.
pub to_string-IsDigits : (n : ℕ) → IsDigits (to_string n)
to_string-IsDigits n = elim (Bool-cases (ltb n 10)) [
  | inl e ↦
      rw (to_string_small n (ground arith)) (digits (b'0' + n) [] refl (digit-of n (ground arith)))
  | inr e ↦ rw (to_string_large n (ground arith)) (
      append-IsDigits (to_string (n / 10)) (b'0' + n % 10) (
        subst (λ s. All (λ c. is_digit c ≡ true) s) (to_string_large n (ground arith))
          (to_string_digits n)))
]

pub port_of-digits :
    (d : ℕ) (ds : Bytes) (n : ℕ)
    → is_digit d ≡ true
    → digits_value 0 (d ∷ ds) ≡ n
    → n < 2 ^ 16
    → port_of (d ∷ ds) ≡ some n
unfolding port_of signed_port skip_blanks unsigned_port is_space is_digit
port_of-digits d ds n e h l = ground (arith, e, h, l)
