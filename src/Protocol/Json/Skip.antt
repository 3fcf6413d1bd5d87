-- ===== src/Protocol/Json/Skip.antt =====
-- `skipValue` of src/common/protocol.cpp on the literals that are no strings and no numbers:
-- `true`, `false`, `null`.
use github_codespaces_proxy.Base.{
  ℕ, zero, suc, ◌≤◌, ◌<◌, ◌≡◌, refl, false, none, some, [], ◌∷◌, ◌++◌, arith, ◌==◌, Bytes, All,
  length, is_digit, is_space, length-append,
}
use github_codespaces_proxy.Protocol.Json.{
  json_escape, eat, peek, skip_ws, skip_loop, skip_value, Doubles, JsonObject, insert, other_value,
  value, member, members,
}
use github_codespaces_proxy.Protocol.Json.Strings.{string-json_escape}

-- A lower case word.
unfoldable pub IsLower : ℕ → Type 0
IsLower c = (b'a' ≤ c) × (c ≤ b'z')

-- The signs that the loop looks for are no letters.
lower_signs :
    (c : ℕ)
    → IsLower c
    → (c == b'"' ≡ false)
      × (c == b'{' ≡ false)
      × (c == b'[' ≡ false)
      × (c == b'}' ≡ false)
      × (c == b']' ≡ false)
      × (c == b',' ≡ false)
unfolding IsLower
lower_signs c h =
    (ground arith, ground arith, ground arith, ground arith, ground arith, ground arith)

skip_loop-closed :
    (fuel : ℕ) (w rest : Bytes)
    → length w < fuel
    → All IsLower w
    → skip_loop fuel 0 (w ++ b'}' ∷ rest) ≡ some rest
unfolding skip_loop
skip_loop-closed zero w rest h a = absurd (omega arith)
skip_loop-closed (suc fuel) [] rest h a = refl
skip_loop-closed (suc fuel) (c ∷ w) rest h a =
    let e = skip_loop-closed fuel w rest (omega arith) a.1 in
    let s = lower_signs c a.0 in ground arith

skip_loop-more :
    (fuel : ℕ) (w rest : Bytes)
    → length w < fuel
    → All IsLower w
    → skip_loop fuel 0 (w ++ b',' ∷ rest) ≡ some (b',' ∷ rest)
unfolding skip_loop
skip_loop-more zero w rest h a = absurd (omega arith)
skip_loop-more (suc fuel) [] rest h a = refl
skip_loop-more (suc fuel) (c ∷ w) rest h a =
    let e = skip_loop-more fuel w rest (omega arith) a.1 in
    let s = lower_signs c a.0 in ground arith

-- A word in front of the closing brace of its object takes the brace with it; in front of a comma it
-- leaves the comma.
skip_value-closed :
    (w rest : Bytes) → 0 < length w → All IsLower w → skip_value (w ++ b'}' ∷ rest) ≡ some rest
unfolding skip_value peek
skip_value-closed [] rest h a = absurd (omega arith)
skip_value-closed (c ∷ w) rest h a =
    rw ((lower_signs c a.0).0)
      (skip_loop-closed _ (c ∷ w) rest (omega (arith, length-append w (b'}' ∷ rest))) a)

skip_value-more :
    (w rest : Bytes)
    → 0 < length w
    → All IsLower w
    → skip_value (w ++ b',' ∷ rest) ≡ some (b',' ∷ rest)
unfolding skip_value peek
skip_value-more [] rest h a = absurd (omega arith)
skip_value-more (c ∷ w) rest h a =
    rw ((lower_signs c a.0).0)
      (skip_loop-more _ (c ∷ w) rest (omega (arith, length-append w (b',' ∷ rest))) a)

module _ (dbl : Doubles) where
  open dbl use {Double}

  value-word :
      (w s rest : Bytes)
      → 0 < length w
      → All IsLower w
      → skip_value (w ++ s) ≡ some rest
      → value dbl (w ++ s) ≡ some (other_value dbl, rest)
  unfolding value peek is_digit IsLower
  value-word [] s rest h a e = absurd (omega arith)
  value-word (c ∷ w) s rest h a e = let (l, _) = a in ground arith

  skip_ws-word : (w s : Bytes) → 0 < length w → All IsLower w → skip_ws (w ++ s) ≡ w ++ s
  unfolding skip_ws is_space IsLower
  skip_ws-word [] s h a = absurd (omega arith)
  skip_ws-word (c ∷ w) s h a = let (l, _) = a in ground arith

  member-word :
      (k w s rest : Bytes)
      → 0 < length w
      → All IsLower w
      → skip_value (w ++ s) ≡ some rest
      → member dbl (b'"' ∷ (json_escape k ++ b'"' ∷ b':' ∷ (w ++ s)))
        ≡ some (k, other_value dbl, rest)
  unfolding member skip_ws eat
  member-word k w s rest h a e =
      rw (string-json_escape k (b':' ∷ (w ++ s)), skip_ws-word w s h a, value-word w s rest h a e)
        refl

  -- An object that ends behind a bare word has no parse, since the word takes the closing brace
  -- with it; with a comma behind the word, the scan goes on to the next member, the word's member
  -- being in the object with no text and no number. The word is any nonempty one in lower case.
  pub members-word :
      (fuel : ℕ) (k w more : Bytes) (out : JsonObject Double)
      → 0 < length w
      → All IsLower w
      → (members dbl (suc fuel) (b'"' ∷ (json_escape k ++ b'"' ∷ b':' ∷ (w ++ b'}' ∷ []))) out
          ≡ none)
        × (members dbl (suc fuel) (b'"' ∷ (json_escape k ++ b'"' ∷ b':' ∷ (w ++ b',' ∷ more))) out
            ≡ members dbl fuel more (insert k (other_value dbl) out))
  unfolding members skip_ws eat
  members-word fuel k w more out h a = (
    rw (members, member-word k w (b'}' ∷ []) [] h a (skip_value-closed w [] h a)) refl,
    rw (members, member-word k w (b',' ∷ more) (b',' ∷ more) h a (skip_value-more w more h a)) refl,
  )
