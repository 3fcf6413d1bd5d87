-- ===== src/Ssrf/Ipv4/Print.antt =====
-- Dotted quads: `snprintf("%u.%u.%u.%u")` of src/common/ssrf.cpp, which `isBlockedIp` parses again.
use github_codespaces_proxy.Base.{
  ℕ, suc, ◌+◌, ◌/◌, ◌%◌, ◌≤◌, ◌<◌, ◌≡◌, refl, sym, false, some, [], ◌∷◌, ◌++◌, arith, ltb, Bytes,
  is_digit, to_string, append-nil, to_string_small, to_string_large, inl, inr, Bool-cases,
}
use github_codespaces_proxy.Ssrf.Ipv4.{part_digits, part, parts, parse_ipv4}

unfoldable pub dotted : ℕ → ℕ → ℕ → ℕ → Bytes
dotted a b c d = to_string a ++ b'.' ∷ (to_string b ++ b'.' ∷ (to_string c ++ b'.' ∷ to_string d))

-- What may follow the digits of a part.
abbrev pub Stops : Bytes → Type 0
Stops [] = Unit {0}
Stops (c ∷ cs) = is_digit c ≡ false

part_digits_stop : (rest : Bytes) (v n : ℕ) → Stops rest → part_digits rest v n ≡ some (v, rest)
unfolding part_digits
part_digits_stop [] v n h = refl
part_digits_stop (c ∷ cs) v n h = ground arith

part_small :
    (a : ℕ) (rest : Bytes) → a < 10 → Stops rest → part (to_string a ++ rest) ≡ some (a, rest)
unfolding part
part_small a rest h s = rw (to_string_small a h) (ground (arith, part_digits_stop rest a 1 s))

to_string_two : (a : ℕ) → 10 ≤ a → a < 100 → to_string a ≡ (b'0' + a / 10) ∷ (b'0' + a % 10) ∷ []
to_string_two a h k = rw (to_string_large a h, to_string_small (a / 10) (omega arith)) refl

to_string_three :
    (a : ℕ)
    → 100 ≤ a
    → a < 1000
    → to_string a ≡ (b'0' + a / 10 / 10) ∷ (b'0' + a / 10 % 10) ∷ (b'0' + a % 10) ∷ []
to_string_three a h k =
    rw (to_string_large a (omega arith), to_string_two (a / 10) (omega arith) (omega arith)) refl

part_two :
    (a : ℕ) (rest : Bytes)
    → 10 ≤ a
    → a < 100
    → Stops rest
    → part (to_string a ++ rest) ≡ some (a, rest)
unfolding part
part_two a rest h k s = rw (to_string_two a h k) (ground (arith, part_digits_stop rest a 2 s))

part_three :
    (a : ℕ) (rest : Bytes)
    → 100 ≤ a
    → a < 256
    → Stops rest
    → part (to_string a ++ rest) ≡ some (a, rest)
unfolding part
part_three a rest h k s =
    rw (to_string_three a h (omega arith)) (ground (arith, part_digits_stop rest a 3 s))

-- A printed byte is read back, and the text behind it is left.
pub part-to_string :
    (a : ℕ) (rest : Bytes) → a < 256 → Stops rest → part (to_string a ++ rest) ≡ some (a, rest)
part-to_string a rest h s = elim (Bool-cases (ltb a 10)) [
  | inl e ↦ part_small a rest (ground arith) s
  | inr e ↦ elim (Bool-cases (ltb a 100)) [
    | inl f ↦ part_two a rest (ground arith) (ground arith) s
    | inr f ↦ part_three a rest (ground arith) h s
  ]
]

parts_more :
    (n a : ℕ) (rest : Bytes) (more : Bytes)
    → a < 256
    → parts n rest ≡ some more
    → parts (suc n) (to_string a ++ b'.' ∷ rest) ≡ some (a ∷ more)
unfolding parts is_digit
parts_more n a rest more h e = rw (part-to_string a (b'.' ∷ rest) h (ground arith), e) refl

parts_last : (d : ℕ) → d < 256 → parts 0 (to_string d) ≡ some (d ∷ [])
unfolding parts
parts_last d h = rw (sym (append-nil (to_string d)), part-to_string d [] h tt) refl

-- Every dotted quad of bytes parses to its four bytes.
pub parse_ipv4-dotted :
    (a b c d : ℕ)
    → a < 256
    → b < 256
    → c < 256
    → d < 256
    → parse_ipv4 (dotted a b c d) ≡ some (a ∷ b ∷ c ∷ d ∷ [])
unfolding parse_ipv4 dotted
parse_ipv4-dotted a b c d ha hb hc hd =
    parts_more 2 a _ _ ha (parts_more 1 b _ _ hb (parts_more 0 c _ _ hc (parts_last d hd)))
