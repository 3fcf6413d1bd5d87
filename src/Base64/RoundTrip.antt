-- ===== src/Base64/RoundTrip.antt =====
-- Decoding what was encoded.
use github_codespaces_proxy.Base.{
  ℕ, ◌+◌, ◌*◌, ◌-◌, ◌/◌, ◌%◌, ◌^◌, ◌≤◌, ◌<◌, ◌≡◌, refl, ap, ◌∙◌, Bool, true, false, none, some,
  ◌||◌, [], ◌∷◌, ◌++◌, arith, leb, ◌==◌, if◌then◌else◌, Bytes, IsByte, All, codes, get_or,
}
use github_codespaces_proxy.Base.Tables.{passes, passes_at}
use github_codespaces_proxy.Base64.{
  is_blank, emit, table, encode_char, decode_char, four_chars, base64_encode, decode_loop,
  base64_decode,
}

-- The test of a sextet: its character is no sign that the decoder treats on its own, and gives it back.
good : ℕ → Bool
good n =
    let c = get_or table n 0 in
    if c == b'=' || is_blank c
    then false
    else (elim (decode_char c) [ none ↦ false | some v ↦ v == n ])

all_good : passes good 64 ≡ true
unfolding passes good decode_char
all_good = refl

-- What a good sextet gives.
good-decode_char :
    (c n : ℕ)
    → (if c == b'=' || is_blank c
        then false
        else (elim (decode_char c) [ none ↦ false | some v ↦ v == n ]))
      ≡ true
    → (decode_char c ≡ some n) × ((c == b'=') ≡ false) × (is_blank c ≡ false)
good-decode_char c n h = (ground arith, ground arith, ground arith)

decode_char-encode_char :
    (n : ℕ)
    → (decode_char (encode_char n) ≡ some (n % 64))
      × ((encode_char n == b'=') ≡ false)
      × (is_blank (encode_char n) ≡ false)
unfolding good encode_char
decode_char-encode_char n =
    good-decode_char (encode_char n) (n % 64) (passes_at good 64 all_good (n % 64) (omega arith))

-- `buf` with one more sextet.
abbrev shift : ℕ → ℕ → ℕ
shift buf n = (buf * 2 ^ 6 + n % 64) % 2 ^ 32

-- A character of the encoder shifts in its sextet; a byte comes out when there are eight bits.
decode_loop-short :
    (buf bits n : ℕ) (rest : Bytes)
    → bits < 2
    → decode_loop buf bits (encode_char n ∷ rest) ≡ decode_loop (shift buf n) (bits + 6) rest
unfolding decode_loop
decode_loop-short buf bits n rest h =
    let (e, q, b) = decode_char-encode_char n in
    let l : leb 8 (bits + 6) ≡ false = ground arith in rw (decode_loop, q, b, e, l) refl

decode_loop-full :
    (buf bits n : ℕ) (rest : Bytes)
    → 2 ≤ bits
    → decode_loop buf bits (encode_char n ∷ rest)
      ≡ emit
          (shift buf n / 2 ^ (bits + 6 - 8) % 256)
          (decode_loop (shift buf n) (bits + 6 - 8) rest)
unfolding decode_loop
decode_loop-full buf bits n rest h =
    let (e, q, b) = decode_char-encode_char n in
    let l : leb 8 (bits + 6) ≡ true = ground arith in rw (decode_loop, q, b, e, l) refl

-- The byte across two sextets, by how far it reaches into the second.
byte_first :
    (buf n : ℕ) → shift (shift buf (n / 2 ^ 18)) (n / 2 ^ 12) / 2 ^ 4 % 256 ≡ n / 2 ^ 16 % 256
byte_first buf n = omega arith

byte_second :
    (buf n : ℕ) → shift (shift buf (n / 2 ^ 12)) (n / 2 ^ 6) / 2 ^ 2 % 256 ≡ n / 2 ^ 8 % 256
byte_second buf n = omega arith

byte_third : (buf n : ℕ) → shift (shift buf (n / 2 ^ 6)) n / 2 ^ 0 % 256 ≡ n % 256
byte_third buf n = omega arith

decode_loop-four_chars :
    (buf n : ℕ) (rest : Bytes)
    → decode_loop buf 0 (four_chars n ++ rest)
      ≡ emit (n / 2 ^ 16 % 256) (
          emit (n / 2 ^ 8 % 256) (
            emit (n % 256) (
              decode_loop
                (shift (shift (shift (shift buf (n / 2 ^ 18)) (n / 2 ^ 12)) (n / 2 ^ 6)) n)
                0
                rest)))
decode_loop-four_chars buf n rest =
    decode_loop-short buf 0 (n / 2 ^ 18) _ (omega arith)
    ∙ decode_loop-full (shift buf (n / 2 ^ 18)) 6 (n / 2 ^ 12) _ (omega arith)
    ∙ rw
        (
          byte_first buf n,
          decode_loop-full (shift (shift buf (n / 2 ^ 18)) (n / 2 ^ 12)) 4 (n / 2 ^ 6)
              (encode_char n ∷ rest) (omega arith),
          byte_second (shift buf (n / 2 ^ 18)) n,
          decode_loop-full (shift (shift (shift buf (n / 2 ^ 18)) (n / 2 ^ 12)) (n / 2 ^ 6)) 2 n
              rest (omega arith),
          byte_third (shift (shift buf (n / 2 ^ 18)) (n / 2 ^ 12)) n,
        )
        refl

-- The three bytes of a group.
group_bytes :
    (a b c : ℕ)
    → IsByte a
    → IsByte b
    → IsByte c
    → let n = a * 2 ^ 16 + b * 2 ^ 8 + c in
      (n / 2 ^ 16 % 256 ≡ a) × (n / 2 ^ 8 % 256 ≡ b) × (n % 256 ≡ c)
group_bytes a b c ha hb hc = (omega arith, omega arith, omega arith)

decode_loop-encode :
    (buf : ℕ) (xs : Bytes) → All IsByte xs → decode_loop buf 0 (base64_encode xs) ≡ some xs
unfolding base64_encode decode_loop
decode_loop-encode buf [] h = refl
decode_loop-encode buf (a ∷ []) h =
    decode_loop-short buf 0 (a * 2 ^ 16 / 2 ^ 18) (encode_char (a * 2 ^ 16 / 2 ^ 12) ∷ codes "==")
      (omega arith)
    ∙ decode_loop-full (shift buf (a * 2 ^ 16 / 2 ^ 18)) 6 (a * 2 ^ 16 / 2 ^ 12) (codes "==")
        (omega arith)
    ∙ ap (λ x. some (x ∷ [])) (byte_first buf (a * 2 ^ 16) ∙ omega (arith, h.0))
decode_loop-encode buf (a ∷ b ∷ []) h =
    let n = a * 2 ^ 16 + b * 2 ^ 8 in
    decode_loop-short buf 0 (n / 2 ^ 18)
      (encode_char (n / 2 ^ 12) ∷ encode_char (n / 2 ^ 6) ∷ codes "=") (omega arith)
    ∙ decode_loop-full (shift buf (n / 2 ^ 18)) 6 (n / 2 ^ 12) (encode_char (n / 2 ^ 6) ∷ codes "=")
        (omega arith)
    ∙ ap
        (λ x. emit x (
          decode_loop (shift (shift buf (n / 2 ^ 18)) (n / 2 ^ 12)) 4
            (encode_char (n / 2 ^ 6) ∷ codes "=")))
        (byte_first buf n ∙ omega (arith, h.0, (h.1).0))
    ∙ ap (emit a) (
        decode_loop-full (shift (shift buf (n / 2 ^ 18)) (n / 2 ^ 12)) 4 (n / 2 ^ 6) (codes "=")
          (omega arith)
        ∙ ap (λ x. some (x ∷ []))
            (byte_second (shift buf (n / 2 ^ 18)) n ∙ omega (arith, h.0, (h.1).0)))
decode_loop-encode buf (a ∷ b ∷ c ∷ rest) h =
    let n = a * 2 ^ 16 + b * 2 ^ 8 + c in
    let g = group_bytes a b c h.0 (h.1).0 ((h.1).1).0 in
    decode_loop-four_chars buf n (base64_encode rest)
    ∙ rw
        (
          g.0,
          g.1,
          g.2,
          decode_loop-encode
              (shift (shift (shift (shift buf (n / 2 ^ 18)) (n / 2 ^ 12)) (n / 2 ^ 6)) n) rest
              ((h.1).1).1,
        )
        refl

-- Decoding an encoded text gives it back, for any bytes.
pub base64_decode-base64_encode :
    (xs : Bytes) → All IsByte xs → base64_decode (base64_encode xs) ≡ some xs
unfolding base64_decode
base64_decode-base64_encode xs h = decode_loop-encode 0 xs h
