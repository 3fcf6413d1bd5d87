-- ===== src/Updater/Fetch.antt =====
-- `posixHttpsGet`, and what `posixHttpsRequest` reads off a response. A request over TLS is a parameter.
pub mod Redirects
use github_codespaces_proxy.Base.{
  ℕ, zero, suc, ◌+◌, ◌%◌, ◌^◌, Bool, true, false, Option, none, some, ◌&&◌, ◌||◌, not, List, [],
  ◌∷◌, ◌++◌, ltb, leb, ◌==◌, if◌then◌else◌, Bytes, codes, is_empty, find, find_char, rfind_char,
  take, drop, text_eq,
}
use github_codespaces_proxy.Util.{to_lower, trim}
use github_codespaces_proxy.Util.Stoi.{stoi, to_int, int_text}
use github_codespaces_proxy.Proxy.Head.{split_lines, chop}

pub record HttpResp : Type 0 where
  pub status : ℕ
  pub location : Bytes
  pub body : Bytes

-- The number behind the first blank; 0 without one.
unfoldable pub status_of : Bytes → ℕ
unfolding find_char to_int
status_of header = elim (find_char 32 header) [
  | none ↦ 0
  | some sp ↦ to_int (drop (sp + 1) header) 0
]

-- The last location header stands.
unfoldable pub location_line : Bytes → Bytes → Bytes
unfolding find_char text_eq to_lower trim
location_line line location = elim (find_char b':' line) [
  | none ↦ location
  | some c ↦
      if text_eq (to_lower (trim (take c line))) (codes "location")
      then trim (drop (c + 1) line)
      else location
]

unfoldable pub location_lines : List Bytes → Bytes → Bytes
unfolding location_line chop
location_lines [] location = location
location_lines (line ∷ lines) location = location_lines lines (location_line (chop line) location)

unfoldable pub location_of : Bytes → Bytes
unfolding split_lines location_lines
location_of header = elim (split_lines header) [
  | [] ↦ []
  | (first ∷ lines) ↦ location_lines lines []
]

-- The response, from its head and what is read behind it.
unfoldable pub response : Bytes → Bytes → HttpResp
unfolding status_of location_of
response header body = record {
  status = status_of header;
  location = location_of header;
  body = body;
}

pub record Target : Type 0 where
  pub host : Bytes
  pub path : Bytes
  pub port : ℕ

-- Host and port; a port that `stoi` refuses is 443.
unfoldable pub host_port : Bytes → Bytes × ℕ
unfolding rfind_char to_int
host_port authority = elim (rfind_char b':' authority) [
  | none ↦ (authority, 443)
  | some colon ↦
      if ltb 0 colon
      then (take colon authority, to_int (drop (colon + 1) authority) 443)
      else (authority, 443)
]

unfoldable pub target_of : Bytes → Target
unfolding find_char host_port
target_of rest = elim (find_char b'/' rest) [
  | none ↦ let hp = host_port rest in record { host = hp.0; path = codes "/"; port = hp.1 }
  | some slash ↦
      let hp = host_port (take slash rest) in
      record { host = hp.0; path = drop slash rest; port = hp.1 }
]

unfoldable pub parse_url : Bytes → Option Target
unfolding find target_of
parse_url url = elim (find (codes "://") url) [
  | none ↦ none
  | some at ↦ some (target_of (drop (at + 3) url))
]

unfoldable pub slash_first : Bytes → Bool
slash_first [] = false
slash_first (c ∷ s) = c == b'/'

-- Where a redirect leads.
unfoldable pub next_url : Target → Bytes → Bytes
unfolding find slash_first int_text
next_url t location =
    let base =
      codes "https://" ++ (t.host ++ (if t.port == 443 then [] else b':' ∷ int_text t.port)) in
    elim (find (codes "://") location) [
      | some at ↦ location
      | none ↦ if slash_first location then base ++ location else base ++ b'/' ∷ location
    ]

unfoldable pub is_redirect : ℕ → Bool
is_redirect status =
    status == 301 || status == 302 || status == 303 || status == 307 || status == 308

pub data Fetched : Type 0 where
  fetched failed : Bytes → Fetched
  request_failed : Fetched
  out_of_fuel : Fetched

-- The result, and the number of the requests that were made.
abbrev pub after_request : Fetched × ℕ → Fetched × ℕ
after_request (r, n) = (r, suc n)

unfoldable pub fetch : (Target → HttpResp) → ℕ → ℕ → Bytes → Fetched × ℕ
unfolding is_redirect is_empty
fetch request zero redirects url = (out_of_fuel, 0)
fetch request (suc fuel) redirects url = elim (parse_url url) [
  | none ↦ (failed (codes "bad url"), 0)
  | some t ↦
      let r = request t in
      let more = after_request (fetch request fuel (redirects + 1) (next_url t r.location)) in
      if r.status == 0
      then (request_failed, 1)
      else if not (is_redirect r.status)
      then (fetched r.body, 1)
      else if leb 5 redirects
      then (failed (codes "too many redirects"), 1)
      else if is_empty r.location
      then (failed (codes "redirect without location"), 1)
      else more
]

unfoldable pub https_get : (Target → HttpResp) → Bytes → Fetched × ℕ
unfolding fetch
https_get request url = fetch request 6 0 url
