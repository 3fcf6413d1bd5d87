-- ===== src/Base64/Examples.antt =====
-- The round trip at texts of every length modulo three.
use github_codespaces_proxy.Base.{◌≡◌, refl, some, [], ◌∷◌, codes, arith}
use github_codespaces_proxy.Base64.{base64_encode, base64_decode}
use github_codespaces_proxy.Base64.RoundTrip.{base64_decode-base64_encode}

encode_test : base64_encode (codes "proxy") ≡ codes "cHJveHk="
unfolding base64_encode
encode_test = refl

decode_test : base64_decode (codes "cHJv eHk=") ≡ some (codes "proxy")
unfolding base64_decode
decode_test = refl

base64_decode-base64_encode_example :
    base64_decode (base64_encode (0 ∷ 255 ∷ 16 ∷ 131 ∷ [])) ≡ some (0 ∷ 255 ∷ 16 ∷ 131 ∷ [])
base64_decode-base64_encode_example =
    base64_decode-base64_encode (0 ∷ 255 ∷ 16 ∷ 131 ∷ [])
      (omega arith, (omega arith, (omega arith, (omega arith, tt))))
