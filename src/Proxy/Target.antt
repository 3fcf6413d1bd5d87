-- ===== src/Proxy/Target.antt =====
-- `parseHostHeader` and `parseAbsoluteTarget`. `none` is the result false; else host and port.
pub mod Hosts
use github_codespaces_proxy.Base.{
  ℕ, zero, suc, ◌+◌, ◌-◌, Bool, true, false, Option, none, some, ◌&&◌, List, [], ◌∷◌, ◌++◌, ltb,
  ◌==◌, if◌then◌else◌, Bytes, codes, is_empty, is_digit, starts_with, find_char, rfind_char, take,
  drop, length,
}
use github_codespaces_proxy.Client.Url.{port_of}
use github_codespaces_proxy.Util.{trim}

-- The port is read; the host must not be empty.
unfoldable pub with_host : Bytes → Option ℕ → Option (Bytes × ℕ)
unfolding is_empty
with_host host none = none
with_host host (some port) = if is_empty host then none else some (host, port)

-- The port in the text behind a closing bracket.
unfoldable pub port_behind : ℕ → Bytes → Option ℕ
port_behind default_port [] = some default_port
port_behind default_port (c ∷ cs) = if c == b':' then port_of cs else some default_port

unfoldable pub bracketed_host : ℕ → Bytes → Option (Bytes × ℕ)
unfolding find_char port_behind with_host
bracketed_host default_port value = elim (find_char b']' value) [
  | none ↦ none
  | some end_ ↦
      with_host (take (end_ - 1) (drop 1 value)) (port_behind default_port (drop (end_ + 1) value))
]

-- Whether the text goes on with a digit.
unfoldable pub digit_first : Bytes → Bool
unfolding is_digit
digit_first [] = false
digit_first (c ∷ cs) = is_digit c

-- A port stands behind the only colon and begins with a digit; else the whole value is the host.
unfoldable pub plain_host : ℕ → Bytes → Option (Bytes × ℕ)
unfolding find_char rfind_char digit_first with_host
plain_host default_port value = elim (rfind_char b':' value) [
  | none ↦ with_host value (some default_port)
  | some colon ↦ elim (find_char b':' value) [
    | none ↦ with_host value (some default_port)
    | some first ↦
        if first == colon && digit_first (drop (colon + 1) value)
        then with_host (take colon value) (port_of (drop (colon + 1) value))
        else with_host value (some default_port)
  ]
]

unfoldable pub parse_value : ℕ → Bytes → Option (Bytes × ℕ)
unfolding bracketed_host plain_host
parse_value default_port [] = none
parse_value default_port (c ∷ cs) =
    if c == b'[' then bracketed_host default_port (c ∷ cs) else plain_host default_port (c ∷ cs)

unfoldable pub parse_host_header : ℕ → Bytes → Option (Bytes × ℕ)
unfolding parse_value trim
parse_host_header default_port host_header = parse_value default_port (trim host_header)

-- The authority behind the scheme, up to a slash.
unfoldable pub parse_authority : ℕ → Bytes → Option (Bytes × ℕ)
unfolding find_char is_empty parse_host_header
parse_authority default_port rest =
    let authority : Bytes = elim (find_char b'/' rest) [
      | none ↦ rest
      | some slash ↦ take slash rest
    ] in
    if is_empty authority then none else parse_host_header default_port authority

unfoldable pub parse_absolute_target : Bytes → Option (Bytes × ℕ)
unfolding starts_with parse_authority
parse_absolute_target target =
    if starts_with (codes "http://") target
    then parse_authority 80 (drop 7 target)
    else if starts_with (codes "https://") target
    then parse_authority 443 (drop 8 target)
    else none
