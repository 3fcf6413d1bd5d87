-- ===== src/Proxy/Request.antt =====
-- `replyError` and `handleConn`: which connection of the proxy gets which answer or session.
use github_codespaces_proxy.Base.{
  ℕ, ◌*◌, Option, none, some, ◌||◌, List, [], ◌∷◌, ◌++◌, if◌then◌else◌, Bytes, codes, find, take,
  length, starts_with, to_string,
}
use github_codespaces_proxy.Util.{iequals}
use github_codespaces_proxy.Stream.{socket_read_until}
use github_codespaces_proxy.Client.State.{Net, TunnelOptions, Tunnel}
use github_codespaces_proxy.Client.Sessions.{open_session}
use github_codespaces_proxy.Proxy.Target.{parse_host_header, parse_absolute_target}
use github_codespaces_proxy.Proxy.Head.{Header, RequestHead, parse_request_head, rebuild}

abbrev pub crlf : Bytes
crlf = 13 ∷ 10 ∷ []

-- The response that `replyError` writes, before it shuts the sending side down.
unfoldable pub error_reply : ℕ → Bytes → Bytes
unfolding to_string
error_reply status text_ =
    let body = to_string status ++ codes " " ++ text_ ++ 10 ∷ [] in
    codes "HTTP/1.1 "
    ++ to_string status
    ++ codes " "
    ++ text_
    ++ crlf
    ++ codes "Content-Type: text/plain; charset=utf-8"
    ++ crlf
    ++ codes "Content-Length: "
    ++ to_string (length body)
    ++ crlf
    ++ codes "Proxy-Agent: http-over-wss"
    ++ crlf
    ++ codes "Connection: close"
    ++ crlf
    ++ crlf
    ++ body

-- The first header of that name gives host and port.
unfoldable pub host_of : List Header → Option (Bytes × ℕ)
unfolding iequals parse_host_header
host_of [] = none
host_of ((name, value) ∷ headers) =
    if iequals name (codes "host") then parse_host_header 80 value else host_of headers

-- The target of a request that is not a CONNECT.
unfoldable pub plain_target : RequestHead → Option (Bytes × ℕ)
unfolding starts_with parse_absolute_target host_of
plain_target r =
    let absolute : Option (Bytes × ℕ) =
      if starts_with (codes "http://") r.target || starts_with (codes "https://") r.target
      then parse_absolute_target r.target
      else none in
    elim absolute [ none ↦ host_of r.headers | some where_ ↦ some where_ ]

-- The connection is closed, gets an error reply, or goes on with the session at an index: as a
-- tunnel, or with the head that is sent first.
pub data Outcome : Type 0 where
  dropped : Outcome
  refused : ℕ → Bytes → Outcome
  tunnelled : ℕ → Outcome
  passed_on : ℕ → Bytes → Outcome

unfoldable pub with_session : (ℕ → Outcome) → Tunnel × Option ℕ → Tunnel × Outcome
with_session go (t, none) = (t, refused 502 (codes "Bad Gateway: tunnel not ready"))
with_session go (t, some session) = (t, go session)

unfoldable pub handle_connect : Net → TunnelOptions → RequestHead → Tunnel → Tunnel × Outcome
handle_connect net opts r t = elim (parse_host_header 443 r.target) [
  | none ↦ (t, refused 400 (codes "Bad Request: invalid CONNECT target"))
  | some (host, port) ↦ with_session tunnelled (open_session net opts host port t)
]

unfoldable pub handle_plain : Net → TunnelOptions → RequestHead → Tunnel → Tunnel × Outcome
handle_plain net opts r t = elim (plain_target r) [
  | none ↦ (t, refused 400 (codes "Bad Request: cannot determine target host"))
  | some (host, port) ↦
      with_session (λ session. passed_on session (rebuild r)) (open_session net opts host port t)
]

unfoldable pub handle_head : Net → TunnelOptions → Bytes → Tunnel → Tunnel × Outcome
handle_head net opts head t = elim (parse_request_head head) [
  | none ↦ (t, refused 400 (codes "Bad Request"))
  | some r ↦
      if iequals r.method (codes "CONNECT")
      then handle_connect net opts r t
      else handle_plain net opts r t
]

abbrev pub head_end : Bytes
head_end = 13 ∷ 10 ∷ 13 ∷ 10 ∷ []

-- `handleConn` up to the session, given what the reads of the socket return.
unfoldable pub handle_conn : Net → TunnelOptions → List Bytes → Tunnel → Tunnel × Outcome
handle_conn net opts reads t = elim (socket_read_until head_end (64 * 1024) [] reads) [
  | none ↦ (t, dropped)
  | some (head, rest) ↦ elim (find head_end head) [
    | none ↦ handle_head net opts head t
    | some end_ ↦ handle_head net opts (take end_ head) t
  ]
]
