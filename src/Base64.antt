-- ===== src/Base64.antt =====
-- src/common/base64.cpp. `char` is taken as a byte; the bits of `n` are read by `/` and `%`.
mod Examples
pub mod RoundTrip
pub mod Plain
use github_codespaces_proxy.Base.{
  ℕ, zero, suc, ◌+◌, ◌*◌, ◌-◌, ◌/◌, ◌%◌, ◌^◌, Bool, true, false, Option, none, some, ◌&&◌, ◌||◌,
  List, [], ◌∷◌, ◌++◌, leb, ◌==◌, if◌then◌else◌, Bytes, codes, get_or,
}

abbrev pub table : Bytes
table = codes "ABCDEFGHIJKLMNOPQRSTUVWXYZabcdefghijklmnopqrstuvwxyz0123456789+/"

-- `kTable[n & 0x3f]`.
unfoldable pub encode_char : ℕ → ℕ
encode_char n = get_or table (n % 64) 0

-- `none` for -1.
unfoldable pub decode_char : ℕ → Option ℕ
decode_char c =
    if leb b'A' c && leb c b'Z'
    then some (c - b'A')
    else if leb b'a' c && leb c b'z'
    then some (c - b'a' + 26)
    else if leb b'0' c && leb c b'9'
    then some (c - b'0' + 52)
    else if c == b'+'
    then some 62
    else if c == b'/'
    then some 63
    else none

abbrev pub four_chars : ℕ → Bytes
four_chars n =
    encode_char (n / 2 ^ 18)
    ∷ encode_char (n / 2 ^ 12)
    ∷ encode_char (n / 2 ^ 6)
    ∷ encode_char n
    ∷ []

unfoldable pub base64_encode : Bytes → Bytes
unfolding encode_char
base64_encode [] = []
base64_encode (a ∷ []) =
    let n = a * 2 ^ 16 in encode_char (n / 2 ^ 18) ∷ encode_char (n / 2 ^ 12) ∷ codes "=="
base64_encode (a ∷ b ∷ []) =
    let n = a * 2 ^ 16 + b * 2 ^ 8 in
    encode_char (n / 2 ^ 18) ∷ encode_char (n / 2 ^ 12) ∷ encode_char (n / 2 ^ 6) ∷ codes "="
base64_encode (a ∷ b ∷ c ∷ rest) = four_chars (a * 2 ^ 16 + b * 2 ^ 8 + c) ++ base64_encode rest

abbrev pub is_blank : ℕ → Bool
is_blank c = c == b'\r' || c == b'\n' || c == b' '

abbrev pub emit : ℕ → Option Bytes → Option Bytes
emit byte none = none
emit byte (some out) = some (byte ∷ out)

-- The loop of `base64Decode`. `buf` is the unsigned reading of the code's `int`, which wraps around;
-- only the lowest 14 of its bits are ever used.
unfoldable pub decode_loop : ℕ → ℕ → Bytes → Option Bytes
unfolding decode_char
decode_loop buf bits [] = some []
decode_loop buf bits (c ∷ cs) = elim (c == b'=') [
  | true ↦ some []
  | false ↦ elim (is_blank c) [
    | true ↦ decode_loop buf bits cs
    | false ↦ elim (decode_char c) [
      | none ↦ none
      | some v ↦ elim (leb 8 (bits + 6)) [
        | false ↦ decode_loop ((buf * 2 ^ 6 + v) % 2 ^ 32) (bits + 6) cs
        | true ↦
            emit ((buf * 2 ^ 6 + v) % 2 ^ 32 / 2 ^ (bits + 6 - 8) % 256)
              (decode_loop ((buf * 2 ^ 6 + v) % 2 ^ 32) (bits + 6 - 8) cs)
      ]
    ]
  ]
]

unfoldable pub base64_decode : Bytes → Option Bytes
unfolding decode_loop
base64_decode = decode_loop 0 0
