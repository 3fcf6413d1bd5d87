-- ===== src/Client/Url.antt =====
-- `parseWsUrl` of src/client/tunnel.cpp. The result is the whole `ParsedUrl`: a fresh one comes in,
-- with its defaults. `std::stoi` is written out: blanks, a sign and digits, and an exception for no digit
-- or a value out of the range of `int`.
pub mod Hosts
pub mod Ports
use github_codespaces_proxy.Base.{
  ℕ, zero, suc, ◌+◌, ◌*◌, ◌-◌, ◌%◌, ◌^◌, Bool, true, false, Option, none, some, ◌&&◌, ◌||◌, not,
  List, [], ◌∷◌, ◌++◌, ltb, leb, ◌==◌, if◌then◌else◌, Bytes, codes, is_empty, is_digit, is_space,
  starts_with, find_char, rfind_char, take, drop, length, to_string,
}

pub record ParsedUrl : Type 0 where
  pub tls : Bool
  pub host : Bytes
  pub port : ℕ
  pub path : Bytes
  pub host_header : Bytes

unfoldable pub fresh_url : ParsedUrl
fresh_url = record { tls = true; host = []; port = 443; path = codes "/"; host_header = [] }

-- Whether the scheme stands for TLS, and the text behind it; without a scheme it is wss.
unfoldable pub split_scheme : Bytes → Bool × Bytes
unfolding starts_with
split_scheme url =
    if starts_with (codes "wss://") url
    then (true, drop 6 url)
    else if starts_with (codes "ws://") url
    then (false, drop 5 url)
    else if starts_with (codes "https://") url
    then (true, drop 8 url)
    else if starts_with (codes "http://") url
    then (false, drop 7 url)
    else (true, url)

-- Authority and path; the path is "/" without a slash.
unfoldable pub split_path : Bytes → Bytes × Bytes
unfolding find_char
split_path rest = elim (find_char b'/' rest) [
  | none ↦ (rest, codes "/")
  | some slash ↦ (take slash rest, drop slash rest)
]

unfoldable pub skip_blanks : Bytes → Bytes
unfolding is_space
skip_blanks [] = []
skip_blanks (c ∷ cs) = let rest = skip_blanks cs in if is_space c then rest else c ∷ cs

-- The value of the digits at the front.
unfoldable pub digits_value : ℕ → Bytes → ℕ
unfolding is_digit
digits_value n [] = n
digits_value n (d ∷ ds) =
    let more = digits_value (n * 10 + (d - b'0')) ds in if is_digit d then more else n

-- The value of the digits at the front as a `uint16_t`, if there is one that an `int` holds.
unfoldable pub unsigned_port : ℕ → Bytes → Option ℕ
unfolding digits_value is_digit
unsigned_port limit [] = none
unsigned_port limit (d ∷ ds) =
    if not (is_digit d)
    then none
    else if ltb limit (digits_value 0 (d ∷ ds))
    then none
    else some (digits_value 0 (d ∷ ds) % 2 ^ 16)

-- `static_cast<uint16_t>(std::stoi(text))`; a negative value wraps around.
unfoldable pub signed_port : Bytes → Option ℕ
unfolding unsigned_port
signed_port [] = none
signed_port (c ∷ cs) =
    if c == b'-'
    then (elim (unsigned_port (2 ^ 31) cs) [ none ↦ none | some n ↦ some ((2 ^ 16 - n) % 2 ^ 16) ])
    else if c == b'+'
    then unsigned_port (2 ^ 31 - 1) cs
    else unsigned_port (2 ^ 31 - 1) (c ∷ cs)

unfoldable pub port_of : Bytes → Option ℕ
unfolding signed_port skip_blanks
port_of text = signed_port (skip_blanks text)

-- Host and port of the authority; `default_port` stands if there is none.
unfoldable pub with_port : Bytes → Bytes → Option (Bytes × ℕ)
unfolding port_of
with_port host text = elim (port_of text) [ none ↦ none | some port ↦ some (host, port) ]

-- An IPv6 literal in brackets.
unfoldable pub bracketed : ℕ → Bytes → Option (Bytes × ℕ)
unfolding find_char with_port
bracketed default_port authority = elim (find_char b']' authority) [
  | none ↦ none
  | some end_ ↦
      let host = take (end_ - 1) (drop 1 authority) in
      elim (find_char b':' (drop end_ authority)) [
        | none ↦ some (host, default_port)
        | some colon ↦ with_port host (drop (end_ + colon + 1) authority)
      ]
]

-- A name or an IPv4 address; with more than one colon the whole text is the host.
unfoldable pub plain : ℕ → Bytes → Option (Bytes × ℕ)
unfolding find_char rfind_char with_port
plain default_port authority = elim (find_char b':' authority) [
  | none ↦ some (authority, default_port)
  | some first ↦ elim (rfind_char b':' authority) [
    | none ↦ some (authority, default_port)
    | some colon ↦
        let split = with_port (take colon authority) (drop (colon + 1) authority) in
        if first == colon then split else some (authority, default_port)
  ]
]

unfoldable pub split_authority : ℕ → Bytes → Option (Bytes × ℕ)
unfolding bracketed plain
split_authority default_port [] = some ([], default_port)
split_authority default_port (c ∷ cs) =
    if c == b'[' then bracketed default_port (c ∷ cs) else plain default_port (c ∷ cs)

unfoldable pub parse_parts : Bool → Bytes × Bytes → Option ParsedUrl
unfolding fresh_url split_authority is_empty to_string
parse_parts tls parts = elim (split_authority fresh_url.port parts.0) [
  | none ↦ none
  | some (host, port) ↦
      if is_empty host
      then none
      else some (record {
        tls = tls;
        host = host;
        port = port;
        path = parts.1;
        host_header = host ++ b':' ∷ to_string port;
      })
]

unfoldable pub parse_ws_url : Bytes → Option ParsedUrl
unfolding split_scheme split_path parse_parts
parse_ws_url url = parse_parts (split_scheme url).0 (split_path (split_scheme url).1)
