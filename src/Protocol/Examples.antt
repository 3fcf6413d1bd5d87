-- ===== src/Protocol/Examples.antt =====
-- The protocol's theorems at concrete messages.
use github_codespaces_proxy.Base.{
  ℕ, ◌+◌, ◌*◌, ◌-◌, ◌%◌, ◌^◌, ◌≡◌, ◌⊎◌, none, some, [], ◌∷◌, ◌++◌, Bytes, All, length, codes, arith,
  ◌<◌,
}
use github_codespaces_proxy.Protocol.Frame.{
  DataFrame, encode_data_frame, decode_data_frame, decode_data_frame-encode_data_frame,
  encode_data_frame-decode_data_frame,
}
use github_codespaces_proxy.Protocol.Json.{
  Doubles, string, json_escape, members, insert, other_value, parse_control_message,
}
use github_codespaces_proxy.Protocol.Json.Strings.{string-json_escape}
use github_codespaces_proxy.Protocol.Json.Skip.{IsLower, members-word}
use github_codespaces_proxy.Protocol.Message.{
  half_close_message, close_message, connected_message, closed_message, error_message,
}
use github_codespaces_proxy.Protocol.Message.RoundTrip.{
  notice_object, text_notice_object, server_reads_client_notices, client_reads_server_notices,
}

-- Numbers without a fraction, as a reading of `double` that can be run.
abbrev decimal : ℕ → Bytes → ℕ
decimal n [] = n
decimal n (d ∷ ds) = decimal (n * 10 + (d - b'0')) ds

abbrev pub whole_numbers : Doubles
whole_numbers = record {
  Double = ℕ;
  zero_value = 0;
  strtod = decimal 0;
  to_u32 = λ n. n % 2 ^ 32;
  to_u16 = λ n. n % 2 ^ 16;
}

abbrev payload_bytes : Bytes
payload_bytes = 0 ∷ 255 ∷ 10 ∷ []

decode_data_frame-encode_data_frame_example :
    decode_data_frame (encode_data_frame 305419896 payload_bytes)
    ≡ some (record { session_id = 305419896; payload = payload_bytes })
decode_data_frame-encode_data_frame_example =
    decode_data_frame-encode_data_frame 305419896 payload_bytes (omega arith)

abbrev five_bytes : Bytes
five_bytes = 1 ∷ 2 ∷ 3 ∷ 4 ∷ 5 ∷ []

encode_data_frame-decode_data_frame_example :
    ((length five_bytes < 4) × (decode_data_frame five_bytes ≡ none))
    ⊎ ((f : DataFrame) × (decode_data_frame five_bytes ≡ some f)
        × (f.session_id < 2 ^ 32)
        × (encode_data_frame f.session_id f.payload ≡ five_bytes))
encode_data_frame-decode_data_frame_example =
    encode_data_frame-decode_data_frame five_bytes
      (omega arith, (omega arith, (omega arith, (omega arith, (omega arith, tt)))))

-- Quotes, a backslash, a line end and a control character.
abbrev awkward : Bytes
awkward = b'"' ∷ b'\\' ∷ b'\n' ∷ 1 ∷ b'a' ∷ []

string-json_escape_example :
    string (b'"' ∷ (json_escape awkward ++ b'"' ∷ codes ",1")) ≡ some (awkward, codes ",1")
string-json_escape_example = string-json_escape awkward (codes ",1")

true-IsLower : All IsLower (codes "true")
unfolding IsLower
true-IsLower = (
  (omega arith, omega arith),
  ((omega arith, omega arith), ((omega arith, omega arith), ((omega arith, omega arith), tt))),
)

members-word_example :
    (members whole_numbers 9
        (b'"' ∷ (json_escape (codes "k") ++ b'"' ∷ b':' ∷ (codes "true" ++ b'}' ∷ [])))
        []
      ≡ none)
    × (members whole_numbers 9
          (b'"'
            ∷ (json_escape (codes "k") ++ b'"' ∷ b':' ∷ (codes "true" ++ b',' ∷ codes "\"n\":1}")))
          []
        ≡ members whole_numbers 8
            (codes "\"n\":1}")
            (insert (codes "k") (other_value whole_numbers) []))
members-word_example =
    members-word whole_numbers 8 (codes "k") (codes "true") (codes "\"n\":1}") [] (omega arith)
      true-IsLower

server_reads_client_notices_example :
    (parse_control_message whole_numbers (half_close_message 7)
      ≡ some (notice_object whole_numbers (codes "half-close") 7))
    × (parse_control_message whole_numbers (close_message 7)
        ≡ some (notice_object whole_numbers (codes "close") 7))
server_reads_client_notices_example = server_reads_client_notices whole_numbers 7

client_reads_server_notices_example :
    (parse_control_message whole_numbers (connected_message 7)
      ≡ some (notice_object whole_numbers (codes "connected") 7))
    × (parse_control_message whole_numbers (closed_message 7 awkward)
        ≡ some (text_notice_object whole_numbers (codes "close") 7 (codes "reason") awkward))
    × (parse_control_message whole_numbers (error_message 7 awkward)
        ≡ some (text_notice_object whole_numbers (codes "error") 7 (codes "message") awkward))
client_reads_server_notices_example = client_reads_server_notices whole_numbers 7 awkward
