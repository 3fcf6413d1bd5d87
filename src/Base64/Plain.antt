-- ===== src/Base64/Plain.antt =====
-- No blank in an encoded text.
use github_codespaces_proxy.Base.{
  ℕ, ◌+◌, ◌*◌, ◌/◌, ◌%◌, ◌^◌, ◌≡◌, refl, Bool, true, false, not, [], ◌∷◌, arith, Bytes, All,
  is_space, get_or,
}
use github_codespaces_proxy.Base.Tables.{passes, passes_at}
use github_codespaces_proxy.Base64.{table, encode_char, base64_encode}

plain_char : ℕ → Bool
plain_char n = not (is_space (get_or table n 0))

all_plain : passes plain_char 64 ≡ true
unfolding passes plain_char is_space
all_plain = refl

not-true : (b : Bool) → not b ≡ true → b ≡ false
not-true true h = absurd (ground arith)
not-true false h = refl

encode_char-plain : (n : ℕ) → is_space (encode_char n) ≡ false
unfolding encode_char plain_char
encode_char-plain n = not-true _ (passes_at plain_char 64 all_plain (n % 64) (omega arith))

pub base64-IsPlain : (s : Bytes) → All (λ c. is_space c ≡ false) (base64_encode s)
unfolding base64_encode is_space
base64-IsPlain [] = tt
base64-IsPlain (a ∷ []) =
    let n = a * 2 ^ 16 in
    (encode_char-plain (n / 2 ^ 18), (encode_char-plain (n / 2 ^ 12), (refl, (refl, tt))))
base64-IsPlain (a ∷ b ∷ []) =
    let n = a * 2 ^ 16 + b * 2 ^ 8 in
    (
      encode_char-plain (n / 2 ^ 18),
      (encode_char-plain (n / 2 ^ 12), (encode_char-plain (n / 2 ^ 6), (refl, tt))),
    )
base64-IsPlain (a ∷ b ∷ c ∷ rest) =
    let n = a * 2 ^ 16 + b * 2 ^ 8 + c in
    (
      encode_char-plain (n / 2 ^ 18),
      (
        encode_char-plain (n / 2 ^ 12),
        (encode_char-plain (n / 2 ^ 6), (encode_char-plain n, base64-IsPlain rest)),
      ),
    )
