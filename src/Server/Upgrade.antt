-- ===== src/Server/Upgrade.antt =====
-- `readHttpHead`, `respond400` and `handleConnection` of src/server/main.cpp up to the open socket.
pub mod Request
pub mod Handshake
pub mod Both
pub mod Prefix
pub mod Tls
use github_codespaces_proxy.Base.{
  ℕ, zero, suc, ◌+◌, ◌-◌, ◌*◌, Bool, true, false, ◌&&◌, ◌||◌, not, Option, none, some, List, [],
  ◌∷◌, ◌++◌, ltb, leb, ◌==◌, if◌then◌else◌, Bytes, codes, find, find_char, take, drop, length,
  is_empty, text_eq, to_string,
}
use github_codespaces_proxy.Util.{to_lower, trim, iequals}
use github_codespaces_proxy.Stream.{socket_read_until}
use github_codespaces_proxy.Proxy.Head.{split_lines, chop, next_word}
use github_codespaces_proxy.WebSocket.Accept.{accept_key}
use github_codespaces_proxy.WebSocket.Handshake.{crlf}
use github_codespaces_proxy.Server.Counts.{Counts, ip_count, inc_ip, dec_ip}

abbrev pub Headers : Type 0
Headers = List (Bytes × Bytes)

-- The map of the headers: an assignment takes the place of an older one.
unfoldable pub put_header : Bytes → Bytes → Headers → Headers
unfolding text_eq
put_header key value [] = (key, value) ∷ []
put_header key value ((k, v) ∷ headers) =
    let rest = put_header key value headers in
    if text_eq k key then (key, value) ∷ headers else (k, v) ∷ rest

unfoldable pub get_header : Bytes → Headers → Option Bytes
unfolding text_eq
get_header key [] = none
get_header key ((k, v) ∷ headers) = if text_eq k key then some v else get_header key headers

pub record HttpHead : Type 0 where
  pub method : Bytes
  pub target : Bytes
  pub version : Bytes
  pub headers : Headers
  pub raw : Bytes
  pub body_prefix : Bytes

-- The header of a line without its line end; keys are in lower case.
unfoldable pub add_header : Bytes → Headers → Headers
add_header line headers = elim (find_char b':' line) [
  | none ↦ headers
  | some c ↦ put_header (to_lower (trim (take c line))) (trim (drop (c + 1) line)) headers
]

unfoldable pub add_headers : List Bytes → Headers → Headers
unfolding add_header chop
add_headers [] headers = headers
add_headers (line ∷ lines) headers = add_headers lines (add_header (chop line) headers)

-- Method, target and version of the first line.
unfoldable pub request_words : Bytes → Bytes × Bytes × Bytes
request_words line =
    let m = next_word (chop line) in
    let t = next_word m.1 in let v = next_word t.1 in (m.0, t.0, v.0)

unfoldable pub parse_http_lines : Bytes → Bytes → List Bytes → Option HttpHead
unfolding is_empty
parse_http_lines head body_prefix [] = none
parse_http_lines head body_prefix (first ∷ lines) =
    let w = request_words first in
    if is_empty w.0 || is_empty w.1
    then none
    else some (record {
      method = w.0;
      target = w.1;
      version = w.2;
      headers = add_headers lines [];
      raw = head;
      body_prefix = body_prefix;
    })

abbrev pub head_end : Bytes
head_end = 13 ∷ 10 ∷ 13 ∷ 10 ∷ []

-- Without the delimiter, which `readUntil` rules out, the place is npos, and npos and 4 is 3.
unfoldable pub split_head : Bytes → Bytes × Bytes
split_head buf = elim (find head_end buf) [
  | none ↦ (buf, drop 3 buf)
  | some at ↦ (take at buf, drop (at + 4) buf)
]

unfoldable pub read_http_head : List Bytes → Option (HttpHead × List Bytes)
read_http_head reads = elim (socket_read_until head_end (64 * 1024) [] reads) [
  | none ↦ none
  | some (buf, rest) ↦
      let parts = split_head buf in
      elim (parse_http_lines parts.0 parts.1 (split_lines parts.0)) [
        | none ↦ none
        | some head ↦ some (head, rest)
      ]
]

unfoldable pub respond_400 : Bytes → Bytes
respond_400 body =
    codes "HTTP/1.1 400 Bad Request"
    ++ crlf
    ++ codes "Content-Type: text/plain; charset=utf-8"
    ++ crlf
    ++ codes "Content-Length: "
    ++ to_string (length body)
    ++ crlf
    ++ codes "Connection: close"
    ++ crlf
    ++ crlf
    ++ body

-- The target up to a question mark.
unfoldable pub path_of : Bytes → Bytes
path_of target = elim (find_char b'?' target) [ none ↦ target | some at ↦ take at target ]

unfoldable pub is_upgrade : Headers → Bool
is_upgrade headers = elim (get_header (codes "upgrade") headers) [
  | none ↦ false
  | some value ↦ iequals value (codes "websocket")
]

unfoldable pub key_of : Headers → Bytes
key_of headers = elim (get_header (codes "sec-websocket-key") headers) [
  | none ↦ []
  | some key ↦ key
]

unfoldable pub switching_response : Bytes → Bytes
switching_response accept =
    codes "HTTP/1.1 101 Switching Protocols"
    ++ (crlf
        ++ (codes "Upgrade: websocket"
            ++ (crlf
                ++ (codes "Connection: Upgrade"
                    ++ (crlf ++ (codes "Sec-WebSocket-Accept: " ++ (accept ++ (crlf ++ crlf))))))))

-- What becomes of a connection, with what is written to it before it is closed.
pub data Admission : Type 0 where
  unread : Admission
  refused : Bytes → Admission
  write_failed : Admission
  upgraded : Bytes → Admission

-- The limit, the count and the response; `over` is what becomes of an address over its limit.
unfoldable pub admit :
    (Bytes → Bool) → Admission → ℕ → Bytes → HttpHead → Counts → Admission × Counts
unfolding inc_ip dec_ip
admit write_ok over max_sessions_per_ip ip req counts =
    let resp = switching_response (accept_key (key_of req.headers)) in
    if leb max_sessions_per_ip (ip_count counts ip)
    then (over, counts)
    else if not (write_ok resp)
    then (write_failed, dec_ip ip (inc_ip ip counts))
    else (upgraded resp, inc_ip ip counts)

unfoldable pub answer : (Bytes → Bool) → ℕ → Bytes → HttpHead → Counts → Admission × Counts
answer write_ok max_sessions_per_ip ip req counts =
    if not (is_upgrade req.headers) || not (text_eq (path_of req.target) (codes "/"))
    then (
      refused (
          respond_400 (
            codes "400 Bad Request: this endpoint only accepts WebSocket upgrade on \"/\""
            ++ 10 ∷ [])),
      counts,
    )
    else admit write_ok
        (refused (respond_400 (codes "503 per-ip session limit reached" ++ 10 ∷ [])))
        max_sessions_per_ip ip req counts

unfoldable pub handle_connection :
    (Bytes → Bool) → ℕ → Bytes → List Bytes → Counts → Admission × Counts
handle_connection write_ok max_sessions_per_ip ip reads counts = elim (read_http_head reads) [
  | none ↦ (unread, counts)
  | some (req, rest) ↦ answer write_ok max_sessions_per_ip ip req counts
]
