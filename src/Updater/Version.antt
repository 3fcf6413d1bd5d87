-- ===== src/Updater/Version.antt =====
-- `compareVersion`.
pub mod Release
use github_codespaces_proxy.Base.{
  ℕ, ◌-◌, ◌^◌, Bool, true, false, Option, none, some, ◌||◌, List, [], ◌∷◌, ltb, ◌==◌, if◌then◌else◌,
  Bytes, get_or, is_digit, is_empty,
}
use github_codespaces_proxy.Client.Url.{digits_value}
use github_codespaces_proxy.Proxy.Head.{cons_first}

-- The results -1, 0 and 1.
pub data Compared : Type 0 where
  older same newer : Compared

unfoldable pub norm : Bytes → Bytes
norm [] = []
norm (c ∷ s) = if c == b'v' || c == b'V' then s else c ∷ s

-- What `getline` with a dot gives until it fails.
unfoldable pub split_dots : Bytes → List Bytes
unfolding cons_first
split_dots [] = []
split_dots (c ∷ cs) = let rest = split_dots cs in if c == b'.' then [] ∷ rest else cons_first c rest

unfoldable pub digits_of : Bytes → Bytes
unfolding is_digit
digits_of [] = []
digits_of (c ∷ cs) = let rest = digits_of cs in if is_digit c then c ∷ rest else rest

-- The number of a part; `std::stoi` throws if it does not fit an `int`.
unfoldable pub part_number : Bytes → Option ℕ
unfolding digits_value
part_number num = if ltb (2 ^ 31 - 1) (digits_value 0 num) then none else some (digits_value 0 num)

unfoldable pub cons_number : Option ℕ → Option (List ℕ) → Option (List ℕ)
cons_number none rest = none
cons_number (some n) none = none
cons_number (some n) (some ns) = some (n ∷ ns)

unfoldable pub part_numbers : List Bytes → Option (List ℕ)
unfolding part_number digits_of cons_number
part_numbers [] = some []
part_numbers (tok ∷ toks) = cons_number (part_number (digits_of tok)) (part_numbers toks)

unfoldable pub version_numbers : Bytes → Option (List ℕ)
version_numbers s = part_numbers (split_dots (norm s))

-- The first three numbers; missing ones are 0.
unfoldable pub compare_numbers : List ℕ → List ℕ → Compared
compare_numbers va vb =
    if ltb (get_or va 0 0) (get_or vb 0 0)
    then older
    else if ltb (get_or vb 0 0) (get_or va 0 0)
    then newer
    else if ltb (get_or va 1 0) (get_or vb 1 0)
    then older
    else if ltb (get_or vb 1 0) (get_or va 1 0)
    then newer
    else if ltb (get_or va 2 0) (get_or vb 2 0)
    then older
    else if ltb (get_or vb 2 0) (get_or va 2 0)
    then newer
    else same

-- `none` is an exception that leaves the function.
unfoldable pub compare_version : Bytes → Bytes → Option Compared
compare_version a b = elim (version_numbers a) [
  | none ↦ none
  | some va ↦ elim (version_numbers b) [ none ↦ none | some vb ↦ some (compare_numbers va vb) ]
]
