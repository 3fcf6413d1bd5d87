-- ===== src/Base/Strings.antt =====
-- The parts of `std::string`, <cctype> and `std::to_string` that the source uses, over bytes.
use Prim.Native.Nat.{ℕ, zero, suc, ◌+◌, ◌-◌, ◌/◌, ◌%◌, ◌<◌, ◌≤◌}
use mathlib.Core.Path.{◌≡◌}
use mathlib.Core.Bool.{Bool, true, false, ◌&&◌, ◌||◌}
use mathlib.Core.Option.{Option, none, some}
use mathlib.Core.Option
use mathlib.Core.Logic.{inl, inr}
use mathlib.Core.List.{[], ◌∷◌, ◌++◌}
use native.Mathlib.Omega.{arith}
use github_codespaces_proxy.Base.Tests.{◌==◌, ltb, leb, if◌then◌else◌, Bool-cases}
use github_codespaces_proxy.Base.Lists.{drop, All, All-append}
use github_codespaces_proxy.Base.Text.{Bytes}

unfoldable pub is_digit : ℕ → Bool
is_digit c = leb b'0' c && leb c b'9'

-- Space, \t, \n, \v, \f and \r.
unfoldable pub is_space : ℕ → Bool
is_space c = c == 32 || leb 9 c && leb c 13

unfoldable pub to_lower_char : ℕ → ℕ
to_lower_char c = if leb b'A' c && leb c b'Z' then c + 32 else c

unfoldable pub is_empty : Bytes → Bool
is_empty [] = true
is_empty (x ∷ xs) = false

unfoldable pub starts_with : Bytes → Bytes → Bool
starts_with [] s = true
starts_with (p ∷ ps) [] = false
starts_with (p ∷ ps) (c ∷ cs) = p == c && starts_with ps cs

-- `s.find(p)`; `none` is npos.
unfoldable pub find : Bytes → Bytes → Option ℕ
unfolding starts_with is_empty
find p [] = if is_empty p then some 0 else none
find p (c ∷ cs) =
    let later = Option.map suc (find p cs) in if starts_with p (c ∷ cs) then some 0 else later

-- `s.find(p, from)`.
unfoldable pub find_from : Bytes → Bytes → ℕ → Option ℕ
unfolding find
find_from p s from = Option.map (λ i. from + i) (find p (drop from s))

-- `s.find(c)` and `s.rfind(c)` on one character.
unfoldable pub find_char : ℕ → Bytes → Option ℕ
find_char p [] = none
find_char p (c ∷ cs) =
    let later = Option.map suc (find_char p cs) in if c == p then some 0 else later

unfoldable pub rfind_char : ℕ → Bytes → Option ℕ
rfind_char p [] = none
rfind_char p (c ∷ cs) = elim (rfind_char p cs) [
  | some i ↦ some (suc i)
  | none ↦ if c == p then some 0 else none
]

-- `std::to_string` of an unsigned number; the fuel bounds the number of digits.
unfoldable pub decimal_digits : ℕ → ℕ → Bytes
decimal_digits zero n = []
decimal_digits (suc fuel) n =
    let front = decimal_digits fuel (n / 10) in
    if ltb n 10 then (b'0' + n) ∷ [] else front ++ (b'0' + n % 10) ∷ []

unfoldable pub to_string : ℕ → Bytes
unfolding decimal_digits
to_string n = decimal_digits (suc n) n

-- Any fuel above the number gives the same digits.
pub decimal_digits_fuel : (f g n : ℕ) → n < f → n < g → decimal_digits f n ≡ decimal_digits g n
unfolding decimal_digits
decimal_digits_fuel zero g n h k = absurd (omega arith)
decimal_digits_fuel (suc f) zero n h k = absurd (omega arith)
decimal_digits_fuel (suc f) (suc g) n h k = ground (arith, decimal_digits_fuel f g (n / 10))

pub to_string_small : (n : ℕ) → n < 10 → to_string n ≡ (b'0' + n) ∷ []
unfolding to_string
to_string_small n h = ground arith

pub to_string_large : (n : ℕ) → 10 ≤ n → to_string n ≡ to_string (n / 10) ++ (b'0' + n % 10) ∷ []
unfolding to_string
to_string_large n h = ground (arith, decimal_digits_fuel n (suc (n / 10)) (n / 10))

digits-All : (f n : ℕ) → All (λ c. is_digit c ≡ true) (decimal_digits f n)
unfolding decimal_digits is_digit
digits-All zero n = tt
digits-All (suc f) n = elim (Bool-cases (ltb n 10)) [
  | inl e ↦ rw e (ground arith, tt)
  | inr e ↦ rw e (
      All-append (λ c. is_digit c ≡ true) (decimal_digits f (n / 10)) ((b'0' + n % 10) ∷ [])
        (digits-All f (n / 10)) (ground arith, tt))
]

pub to_string_digits : (n : ℕ) → All (λ c. is_digit c ≡ true) (to_string n)
unfolding to_string
to_string_digits n = digits-All (suc n) n

-- One lower-case hexadecimal digit.
unfoldable pub hex_digit : ℕ → ℕ
hex_digit n = if ltb n 10 then b'0' + n else b'a' + (n - 10)

-- The value of a hexadecimal digit of either case.
unfoldable pub hex_value : ℕ → Option ℕ
hex_value c =
    if leb b'0' c && leb c b'9'
    then some (c - b'0')
    else if leb b'a' c && leb c b'f'
    then some (c - b'a' + 10)
    else if leb b'A' c && leb c b'F'
    then some (c - b'A' + 10)
    else none

-- "%x" of a number below 2 ^ 16.
unfoldable pub hex_string : ℕ → Bytes
unfolding hex_digit
hex_string n =
    if ltb n 16
    then hex_digit n ∷ []
    else if ltb n 256
    then hex_digit (n / 16) ∷ hex_digit (n % 16) ∷ []
    else if ltb n 4096
    then hex_digit (n / 256) ∷ hex_digit (n / 16 % 16) ∷ hex_digit (n % 16) ∷ []
    else hex_digit (n / 4096)
      ∷ hex_digit (n / 256 % 16)
      ∷ hex_digit (n / 16 % 16)
      ∷ hex_digit (n % 16)
      ∷ []

pub hex_value-hex_digit : (n : ℕ) → n < 16 → hex_value (hex_digit n) ≡ some n
unfolding hex_value hex_digit
hex_value-hex_digit n h = ground arith
