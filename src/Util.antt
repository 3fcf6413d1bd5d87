-- ===== src/Util.antt =====
-- `toLower`, `trim` and `iequals` of src/common/util.cpp, in the "C" locale.
mod Examples
pub mod Trim
pub mod Stoi
use github_codespaces_proxy.Base.{
  ℕ, ◌≡◌, refl, Bool, true, false, ◌&&◌, not, List, [], ◌∷◌, ◌++◌, arith, ◌==◌, if◌then◌else◌,
  Bytes, map, length, is_space, to_lower_char, text_eq,
}

unfoldable pub to_lower : Bytes → Bytes
unfolding to_lower_char
to_lower [] = []
to_lower (c ∷ cs) = to_lower_char c ∷ to_lower cs

-- The loop at the front, and the one at the back.
unfoldable pub trim_front : Bytes → Bytes
unfolding is_space
trim_front [] = []
trim_front (c ∷ cs) = let rest = trim_front cs in if is_space c then rest else c ∷ cs

unfoldable pub trim_back : Bytes → Bytes
unfolding is_space
trim_back [] = []
trim_back (c ∷ cs) = elim (trim_back cs) [
  | [] ↦ if is_space c then [] else c ∷ []
  | (d ∷ ds) ↦ c ∷ d ∷ ds
]

unfoldable pub trim : Bytes → Bytes
unfolding trim_front trim_back
trim s = trim_back (trim_front s)

unfoldable pub lower_equal : Bytes → Bytes → Bool
unfolding to_lower_char
lower_equal [] b = true
lower_equal (x ∷ a) [] = true
lower_equal (x ∷ a) (y ∷ b) = to_lower_char x == to_lower_char y && lower_equal a b

unfoldable pub iequals : Bytes → Bytes → Bool
unfolding lower_equal
iequals a b = if not (length a == length b) then false else lower_equal a b

-- Two texts are iequals exactly if they are the same in lower case.
iequals-to_lower : (a b : Bytes) → iequals a b ≡ text_eq (to_lower a) (to_lower b)
unfolding iequals lower_equal to_lower text_eq
iequals-to_lower [] [] = refl
iequals-to_lower [] (y ∷ b) = ground arith
iequals-to_lower (x ∷ a) [] = ground arith
iequals-to_lower (x ∷ a) (y ∷ b) = let h = iequals-to_lower a b in ground arith
