-- ===== src/Ssrf/Ipv4.antt =====
-- `parseIpv4` of src/common/ssrf.cpp. The index `i` is the suffix of the text that is not read.
pub mod Print
use github_codespaces_proxy.Base.{
  ℕ, zero, suc, ◌+◌, ◌*◌, ◌-◌, ◌<◌, ◌≡◌, Bool, true, false, Option, none, some, List, [], ◌∷◌,
  arith, ltb, ◌==◌, if◌then◌else◌, Bytes, IsByte, length, All, is_digit, is_empty,
}

infixl 5 ◌>>=◌
abbrev pub ◌>>=◌ {ℓ κ} : {A : Type ℓ} {B : Type κ} → Option A → (A → Option B) → Option B
none >>= f = none
some a >>= f = f a

-- The inner loop over the digits of one part.
unfoldable pub part_digits : Bytes → ℕ → ℕ → Option (ℕ × Bytes)
unfolding is_digit
part_digits [] value digits = some (value, [])
part_digits (c ∷ cs) value digits =
    let more = part_digits cs (value * 10 + (c - b'0')) (digits + 1) in
    if is_digit c then (if ltb 3 (digits + 1) then none else more) else some (value, c ∷ cs)

-- One part: a digit first, at most three of them, and a value of at most 255.
unfoldable pub part : Bytes → Option (ℕ × Bytes)
unfolding part_digits
part [] = none
part (c ∷ cs) =
    if is_digit c
    then (do
      (value, rest) ← part_digits (c ∷ cs) 0 0
      if ltb 255 value then none else some (value, rest))
    else none

unfoldable pub dot : Bytes → Option Bytes
dot [] = none
dot (c ∷ cs) = if c == b'.' then some cs else none

-- The outer loop, by the parts that are still to come behind this one.
unfoldable pub parts : ℕ → Bytes → Option Bytes
unfolding part dot is_empty
parts zero s = do (value, rest) ← part s; if is_empty rest then some (value ∷ []) else none
parts (suc n) s = do
  (value, rest) ← part s
  rest' ← dot rest
  more ← parts n rest'
  some (value ∷ more)

unfoldable pub parse_ipv4 : Bytes → Option Bytes
unfolding parts
parse_ipv4 = parts 3
