-- ===== src/Updater/Version/Release.antt =====
-- Versions of three numbers.
use github_codespaces_proxy.Base.{
  ℕ, ◌+◌, ◌*◌, ◌^◌, ◌<◌, ◌≡◌, refl, ap, ◌∙◌, subst, Bool, true, false, some, List, [], ◌∷◌, ◌++◌,
  arith, ltb, ◌==◌, if◌then◌else◌, Bytes, All, is_digit, to_string, to_string_digits,
}
use github_codespaces_proxy.Client.Url.Ports.{
  digits_value-to_string, IsDigits, digits, to_string-IsDigits,
}
use github_codespaces_proxy.Proxy.Head.{cons_first}
use github_codespaces_proxy.Updater.Version.{
  Compared, older, same, newer, norm, split_dots, digits_of, part_number, cons_number, part_numbers,
  version_numbers, compare_numbers, compare_version,
}

-- The text of a version, and its place among all versions with numbers of 31 bits.
unfoldable pub release : ℕ → ℕ → ℕ → Bytes
unfolding to_string
release x y z = to_string x ++ (b'.' ∷ (to_string y ++ b'.' ∷ to_string z))

unfoldable pub rank : ℕ → ℕ → ℕ → ℕ
rank x y z = (x * 2 ^ 31 + y) * 2 ^ 31 + z

unfoldable pub compare_ranks : ℕ → ℕ → Compared
compare_ranks m n = if ltb m n then older else if ltb n m then newer else same

split_dots-append :
    (x s : Bytes) → All (λ c. is_digit c ≡ true) x → split_dots (x ++ b'.' ∷ s) ≡ x ∷ split_dots s
unfolding split_dots is_digit cons_first
split_dots-append [] s h = refl
split_dots-append (c ∷ x) s h =
    let n : (c == b'.') ≡ false = let k = h.0 in ground arith in
    rw (split_dots, n, split_dots-append x s h.1) refl

split_dots-last :
    (d : ℕ) (x : Bytes) → All (λ c. is_digit c ≡ true) (d ∷ x) → split_dots (d ∷ x) ≡ (d ∷ x) ∷ []
unfolding split_dots is_digit cons_first
split_dots-last d [] h = let k = h.0 in ground arith
split_dots-last d (c ∷ x) h =
    let n : (d == b'.') ≡ false = let k = h.0 in ground arith in
    rw (split_dots-last c x h.1, n) refl

digits_of-digits : (s : Bytes) → All (λ c. is_digit c ≡ true) s → digits_of s ≡ s
unfolding digits_of
digits_of-digits [] h = refl
digits_of-digits (c ∷ s) h = rw (digits_of, h.0, digits_of-digits s h.1) refl

part_number-to_string : (n : ℕ) → n < 2 ^ 31 → part_number (digits_of (to_string n)) ≡ some n
unfolding part_number
part_number-to_string n h =
    rw (digits_of-digits (to_string n) (to_string_digits n), digits_value-to_string n)
      (ground arith)

last-part : (s : Bytes) → IsDigits s → All (λ c. is_digit c ≡ true) s → split_dots s ≡ s ∷ []
last-part s (digits d ds e h) k =
    rw e (split_dots-last d ds (subst (λ t. All (λ c. is_digit c ≡ true) t) e k))

split_dots-release :
    (x y z : ℕ) → split_dots (release x y z) ≡ to_string x ∷ to_string y ∷ to_string z ∷ []
unfolding release
split_dots-release x y z =
    split_dots-append (to_string x) (to_string y ++ b'.' ∷ to_string z) (to_string_digits x)
    ∙ ap (◌∷◌ (to_string x)) (
        split_dots-append (to_string y) (to_string z) (to_string_digits y)
        ∙ ap (◌∷◌ (to_string y))
            (last-part (to_string z) (to_string-IsDigits z) (to_string_digits z)))

numbers-release :
    (x y z : ℕ)
    → x < 2 ^ 31
    → y < 2 ^ 31
    → z < 2 ^ 31
    → part_numbers (split_dots (release x y z)) ≡ some (x ∷ y ∷ z ∷ [])
unfolding part_numbers cons_number
numbers-release x y z h k l =
    rw
      (
        split_dots-release x y z,
        part_numbers,
        part_number-to_string x h,
        part_number-to_string y k,
        part_number-to_string z l,
      )
      refl

norm-digits : (s t : Bytes) → IsDigits s → norm (s ++ t) ≡ s ++ t
unfolding norm is_digit
norm-digits s t (digits d ds e h) = rw e (ground (arith, h))

version_numbers-release :
    (x y z : ℕ)
    → x < 2 ^ 31
    → y < 2 ^ 31
    → z < 2 ^ 31
    → (version_numbers (release x y z) ≡ some (x ∷ y ∷ z ∷ []))
      × (version_numbers (b'v' ∷ release x y z) ≡ some (x ∷ y ∷ z ∷ []))
version_numbers-release x y z h k l = (
  numbers-normed (release x y z) (norm-release x y z),
  numbers-normed (b'v' ∷ release x y z) (unfold norm in refl),
)
  where
    norm-release : (x y z : ℕ) → norm (release x y z) ≡ release x y z
    norm-release x y z = unfold release in norm-digits (to_string x) _ (to_string-IsDigits x)

    numbers-normed :
        (s : Bytes) → norm s ≡ release x y z → version_numbers s ≡ some (x ∷ y ∷ z ∷ [])
    numbers-normed s e =
        unfold version_numbers in
        (ap (λ t. part_numbers (split_dots t)) e ∙ numbers-release x y z h k l)

compare_numbers-rank :
    (x y z a b c : ℕ)
    → y < 2 ^ 31
    → z < 2 ^ 31
    → b < 2 ^ 31
    → c < 2 ^ 31
    → compare_numbers (x ∷ y ∷ z ∷ []) (a ∷ b ∷ c ∷ []) ≡ compare_ranks (rank x y z) (rank a b c)
unfolding compare_numbers compare_ranks rank
compare_numbers-rank x y z a b c h k l m = ground arith

compare-parsed :
    (s t : Bytes) (va vb : List ℕ)
    → version_numbers s ≡ some va
    → version_numbers t ≡ some vb
    → compare_version s t ≡ some (compare_numbers va vb)
unfolding compare_version
compare-parsed s t va vb h k = rw (compare_version, h, k) refl

-- A tag may have a v in front.
unfoldable pub tagged : Bool → Bytes → Bytes
tagged v s = if v then b'v' ∷ s else s

version_numbers-tagged :
    (v : Bool) (x y z : ℕ)
    → x < 2 ^ 31
    → y < 2 ^ 31
    → z < 2 ^ 31
    → version_numbers (tagged v (release x y z)) ≡ some (x ∷ y ∷ z ∷ [])
unfolding tagged
version_numbers-tagged true x y z h k l = (version_numbers-release x y z h k l).1
version_numbers-tagged false x y z h k l = (version_numbers-release x y z h k l).0

-- Two versions of three numbers below 2 ^ 31, each with or without a v in front, are compared like
-- the numbers that their three parts make up in base 2 ^ 31, and nothing is thrown.
pub compare_version-release :
    (v w : Bool) (x y z a b c : ℕ)
    → x < 2 ^ 31
    → y < 2 ^ 31
    → z < 2 ^ 31
    → a < 2 ^ 31
    → b < 2 ^ 31
    → c < 2 ^ 31
    → compare_version (tagged v (release x y z)) (tagged w (release a b c))
      ≡ some (compare_ranks (rank x y z) (rank a b c))
compare_version-release v w x y z a b c h k l m n o =
    compare-parsed (tagged v (release x y z)) (tagged w (release a b c)) _ _
      (version_numbers-tagged v x y z h k l) (version_numbers-tagged w a b c m n o)
    ∙ ap some (compare_numbers-rank x y z a b c k l n o)
