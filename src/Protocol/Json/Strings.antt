-- ===== src/Protocol/Json/Strings.antt =====
-- The scanner reads back each string that `jsonEscape` wrote.
use github_codespaces_proxy.Base.{
  ℕ, zero, suc, ◌/◌, ◌%◌, ◌≤◌, ◌<◌, ◌≡◌, refl, ap, ◌∙◌, false, Option, none, some, [], ◌∷◌, ◌++◌,
  arith, ◌==◌, Bytes, length, hex_digit, hex_value-hex_digit, append_assoc, append-nil,
  length-append,
}
use github_codespaces_proxy.Protocol.Json.{
  escape_byte, json_escape, string_char, escaped, unicode, string_loop, string, eat, peek,
}

-- One character of a string, from the front of the text.
abbrev front : Bytes → Option (Bytes × Bytes)
front [] = none
front (c ∷ cs) = string_char c cs

control_front :
    (c : ℕ) (rest : Bytes)
    → c < 0x20
    → front (b'\\' ∷ b'u' ∷ b'0' ∷ b'0' ∷ hex_digit (c / 16) ∷ hex_digit (c % 16) ∷ rest)
      ≡ some (c ∷ [], rest)
unfolding string_char escaped unicode
control_front c rest h =
    rw (hex_value-hex_digit (c / 16) (omega arith), hex_value-hex_digit (c % 16) (omega arith))
      (ground arith)

plain_front :
    (c : ℕ) (rest : Bytes) → (c == b'\\') ≡ false → string_char c rest ≡ some (c ∷ [], rest)
unfolding string_char
plain_front c [] h = refl
plain_front c (e ∷ rest) h = ground arith

escape_front : (c : ℕ) (rest : Bytes) → front (escape_byte c ++ rest) ≡ some (c ∷ [], rest)
unfolding escape_byte string_char escaped
escape_front c rest = ground (arith, control_front c rest, plain_front c rest)

escape_open : (c : ℕ) (rest : Bytes) → (peek (escape_byte c ++ rest) == b'"') ≡ false
unfolding escape_byte peek
escape_open c rest = ground arith

string_loop-front :
    (f : ℕ) (s out : Bytes) {bytes rest : Bytes}
    → (peek s == b'"') ≡ false
    → front s ≡ some (bytes, rest)
    → string_loop (suc f) s out ≡ string_loop f rest (out ++ bytes)
unfolding string_loop peek
string_loop-front f [] out q h = cc
string_loop-front f (c ∷ cs) out q h = ground arith

-- An escaped string up to its closing quote, with enough fuel.
string_loop-json_escape :
    (f : ℕ) (s rest out : Bytes)
    → length s < f
    → string_loop f (json_escape s ++ b'"' ∷ rest) out ≡ some (out ++ s, rest)
unfolding json_escape
string_loop-json_escape zero s rest out h = absurd (omega arith)
string_loop-json_escape (suc f) [] rest out h = unfold string_loop in rw append-nil refl
string_loop-json_escape (suc f) (c ∷ cs) rest out h =
    rw (append_assoc (escape_byte c) (json_escape cs) (b'"' ∷ rest)) (
      string_loop-front f (escape_byte c ++ (json_escape cs ++ b'"' ∷ rest)) out
        (escape_open c (json_escape cs ++ b'"' ∷ rest))
        (escape_front c (json_escape cs ++ b'"' ∷ rest))
      ∙ string_loop-json_escape f cs rest (out ++ c ∷ []) (omega arith)
      ∙ ap (λ (t : Bytes). some (t, rest)) (append_assoc out (c ∷ []) cs))

escape_byte-grows : (c : ℕ) → 1 ≤ length (escape_byte c)
unfolding escape_byte
escape_byte-grows c = ground arith

json_escape-grows : (s : Bytes) → length s ≤ length (json_escape s)
unfolding json_escape
json_escape-grows [] = omega arith
json_escape-grows (c ∷ cs) = omega (
  arith,
  length-append (escape_byte c) (json_escape cs),
  escape_byte-grows c,
  json_escape-grows cs,
)

-- A quoted, escaped string scans to the string and leaves what follows, for every list of bytes.
pub string-json_escape :
    (s rest : Bytes) → string (b'"' ∷ (json_escape s ++ b'"' ∷ rest)) ≡ some (s, rest)
unfolding string eat
string-json_escape s rest =
    string_loop-json_escape (suc (length (json_escape s ++ b'"' ∷ rest))) s rest []
      (omega (arith, length-append (json_escape s) (b'"' ∷ rest), json_escape-grows s))
