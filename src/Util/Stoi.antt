-- ===== src/Util/Stoi.antt =====
-- `std::stoi`: blanks, a sign, digits, and an exception for no digit or a value that an `int` does not
-- hold. The `int` is given by its unsigned reading of 32 bits.
use github_codespaces_proxy.Base.{
  ℕ, ◌-◌, ◌%◌, ◌^◌, Option, none, some, not, [], ◌∷◌, ltb, leb, ◌==◌, if◌then◌else◌, Bytes,
  is_digit, to_string,
}
use github_codespaces_proxy.Client.Url.{digits_value, skip_blanks}

unfoldable pub digits_upto : ℕ → Bytes → Option ℕ
unfolding digits_value is_digit
digits_upto limit [] = none
digits_upto limit (d ∷ ds) =
    if not (is_digit d)
    then none
    else if ltb limit (digits_value 0 (d ∷ ds))
    then none
    else some (digits_value 0 (d ∷ ds))

unfoldable pub negated : Option ℕ → Option ℕ
negated none = none
negated (some n) = some ((2 ^ 32 - n) % 2 ^ 32)

unfoldable pub signed : Bytes → Option ℕ
unfolding digits_upto negated
signed [] = none
signed (c ∷ cs) =
    if c == b'-'
    then negated (digits_upto (2 ^ 31) cs)
    else if c == b'+'
    then digits_upto (2 ^ 31 - 1) cs
    else digits_upto (2 ^ 31 - 1) (c ∷ cs)

unfoldable pub stoi : Bytes → Option ℕ
unfolding signed skip_blanks
stoi s = signed (skip_blanks s)

-- `toInt`, and `std::to_string` of an `int`.
unfoldable pub to_int : Bytes → ℕ → ℕ
unfolding stoi
to_int s def = elim (stoi s) [ none ↦ def | some n ↦ n ]

unfoldable pub int_text : ℕ → Bytes
unfolding to_string
int_text n = if leb (2 ^ 31) n then b'-' ∷ to_string (2 ^ 32 - n) else to_string n
