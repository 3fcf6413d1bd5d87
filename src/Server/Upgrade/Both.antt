-- ===== src/Server/Upgrade/Both.antt =====
-- The upgrade from both ends, over streams that cut the bytes as they like.
use github_codespaces_proxy.Base.{
  ℕ, zero, suc, ◌+◌, ◌*◌, ◌<◌, ◌≤◌, ◌≡◌, refl, ap, ◌∙◌, subst, Bool, true, false, some, List, [],
  ◌∷◌, ◌++◌, arith, Bytes, All, codes, drop, length, length-append, is_empty, take-append_exact,
}
use github_codespaces_proxy.Base64.Plain.{base64-IsPlain}
use github_codespaces_proxy.Stream.{read_until}
use github_codespaces_proxy.Stream.Split.{
  concat, IsEnded, is_ended, append-IsEnded, empty_line-IsEnded, read_until-split,
}
use github_codespaces_proxy.Proxy.Head.{split_lines}
use github_codespaces_proxy.Proxy.Lines.{IsWord}
use github_codespaces_proxy.WebSocket.State.{open_}
use github_codespaces_proxy.WebSocket.Accept.{accept_key}
use github_codespaces_proxy.WebSocket.Handshake.{
  crlf, random_key, request_headers, client_handshake, connect_client,
}
use github_codespaces_proxy.WebSocket.Handshake.Accepted.{accept_key-length, accept_key-IsPlain}
use github_codespaces_proxy.Server.Counts.{Counts, ip_count, inc_ip}
use github_codespaces_proxy.Server.Upgrade.{
  HttpHead, parse_http_lines, split_head, read_http_head, head_end, path_of, switching_response,
  upgraded, answer, handle_connection,
}
use github_codespaces_proxy.Server.Upgrade.Request.{
  request_line, request_head, request_head-request, IsText, is_text, is_text-IsText, append-IsText,
  IsWord-IsText, lines_of-IsLines,
}
use github_codespaces_proxy.Server.Upgrade.Handshake.{
  is_accepted-switching_response, is_request, parse-IsRequest, request_text-request_head,
  request_text-IsEnded, line-IsEnded, answer-request,
}

pub drop_all : (n : ℕ) (s : Bytes) → length s ≤ n → drop n s ≡ []
drop_all zero [] h = refl
drop_all zero (c ∷ s) h = absurd (omega arith)
drop_all (suc n) [] h = refl
drop_all (suc n) (c ∷ s) h = drop_all n s (omega arith)

split_head-ended :
    (head : Bytes) → IsEnded (head ++ head_end) → split_head (head ++ head_end) ≡ (head, [])
unfolding split_head
split_head-ended head (is_ended n f e) =
    let l = length-append head head_end in
    rw
      (
        split_head,
        f,
        take-append_exact head head_end n (omega arith),
        drop_all (n + 4) (head ++ head_end) (omega arith),
      )
      refl

read_until-ended :
    (s : Bytes) (max_bytes : ℕ) (reads : List Bytes)
    → IsEnded s
    → length s ≤ max_bytes
    → All (λ c. 0 < length c) reads
    → concat reads ≡ s
    → read_until head_end max_bytes [] reads ≡ some (s, [])
read_until-ended s max_bytes reads (is_ended n f e) l k c =
    read_until-split head_end s max_bytes n reads (omega arith) f e l k c

-- What the server reads off a head, once the lines of it are parsed.
read_http_head-parsed :
    (head : Bytes) (reads : List Bytes) (r : HttpHead)
    → IsEnded (head ++ head_end)
    → length (head ++ head_end) ≤ 64 * 1024
    → All (λ c. 0 < length c) reads
    → concat reads ≡ head ++ head_end
    → parse_http_lines head [] (split_lines head) ≡ some r
    → read_http_head reads ≡ some (r, [])
unfolding read_http_head
read_http_head-parsed head reads r e l k c p =
    rw
      (
        read_http_head,
        read_until-ended (head ++ head_end) (64 * 1024) reads e l k c,
        split_head-ended head e,
        p,
      )
      refl

handle_connection-read :
    (write_ok : Bytes → Bool) (max : ℕ) (ip : Bytes) (reads rest : List Bytes) (r : HttpHead)
    (counts : Counts)
    → read_http_head reads ≡ some (r, rest)
    → handle_connection write_ok max ip reads counts ≡ answer write_ok max ip r counts
unfolding handle_connection
handle_connection-read write_ok max ip reads rest r counts h = rw (handle_connection, h) refl

random_key-IsWord : (numbers : List ℕ) → IsWord (random_key numbers)
unfolding random_key IsWord
random_key-IsWord numbers = base64-IsPlain _

field-IsText : (name s : Bytes) → is_text name ≡ true → IsText s → IsText (name ++ s)
field-IsText name s h k = append-IsText name s (is_text-IsText name h) k

request_line-IsText : (path : Bytes) → IsWord path → IsText (request_line path)
unfolding request_line is_text
request_line-IsText path h = field-IsText (codes "GET ") (path ++ codes " HTTP/1.1") refl (
    append-IsText path (codes " HTTP/1.1") (IsWord-IsText path h)
      (is_text-IsText (codes " HTTP/1.1") refl))

response-IsEnded : (accept : Bytes) → IsText accept → IsEnded (switching_response accept)
unfolding switching_response is_text IsText
response-IsEnded accept h =
    line-IsEnded (codes "HTTP/1.1 101 Switching Protocols") _ _
      (is_text-IsText (codes "HTTP/1.1 101 Switching Protocols") refl) refl
      (line-IsEnded (codes "Upgrade: websocket") _ _
        (is_text-IsText (codes "Upgrade: websocket") refl) refl
        (line-IsEnded (codes "Connection: Upgrade") _ _
          (is_text-IsText (codes "Connection: Upgrade") refl) refl
          (append-IsEnded (codes "Sec-WebSocket-Accept: " ++ accept) head_end
            (field-IsText (codes "Sec-WebSocket-Accept: ") accept refl h).1 empty_line-IsEnded)))

response-length :
    (accept : Bytes) → length accept ≡ 28 → length (switching_response accept) ≤ 32 * 1024
unfolding switching_response
response-length accept h = let l = length-append accept (crlf ++ crlf) in omega arith

client_accepts :
    (numbers : List ℕ) (host path : Bytes) (replies : List Bytes)
    → All (λ c. 0 < length c) replies
    → concat replies ≡ switching_response (accept_key (random_key numbers))
    → connect_client (λ b. true) numbers host path [] replies ≡ some (open_, [])
unfolding connect_client client_handshake
client_accepts numbers host path replies k c =
    let key = random_key numbers in
    let accept = accept_key key in
    rw
      (
        connect_client,
        client_handshake,
        read_until-ended (switching_response accept) (32 * 1024) replies
            (response-IsEnded accept
              (IsWord-IsText accept (unfold IsWord in accept_key-IsPlain key)))
            (response-length accept (accept_key-length key)) k c,
        is_accepted-switching_response key,
      )
      refl

server_admits :
    (write_ok : Bytes → Bool) (max : ℕ) (ip host path key : Bytes) (reads : List Bytes)
    (counts : Counts)
    → IsText host
    → IsWord path
    → is_empty path ≡ false
    → path_of path ≡ codes "/"
    → IsWord key
    → ip_count counts ip < max
    → write_ok (switching_response (accept_key key)) ≡ true
    → length (request_headers host path [] key ++ crlf) ≤ 64 * 1024
    → All (λ c. 0 < length c) reads
    → concat reads ≡ request_headers host path [] key ++ crlf
    → handle_connection write_ok max ip reads counts
      ≡ (upgraded (switching_response (accept_key key)), inc_ip ip counts)
server_admits write_ok max ip host path key reads counts h p n q k l w m e c =
    let head = request_head host path key in
    let lp = request_line-IsText path p in
    let lh = field-IsText (codes "Host: ") host (unfold is_text in refl) h in
    let lk =
      field-IsText (codes "Sec-WebSocket-Key: ") key (unfold is_text in refl)
        (IsWord-IsText key k) in
    let same = request_head-request host path key n in
    elim (parse-IsRequest host path key head p n k) [
      | is_request r o t g ↦
          handle_connection-read write_ok max ip reads [] r counts (
            read_http_head-parsed head reads r
              (subst IsEnded (request_text-request_head host path key)
                (request_text-IsEnded host path key lp lh lk))
              (subst (λ z. length z ≤ 64 * 1024) same m) e (c ∙ same)
              (ap (parse_http_lines head []) (lines_of-IsLines host path key lp lh lk) ∙ o))
          ∙ answer-request write_ok max ip host path key r counts t g q l w
    ]

-- For a host header without line ends, a path that is one nonempty word and is "/" up to a
-- question mark, and any numbers of the random device: a server below the limit of the address
-- whose write works reads the client's request of at most 64 KiB, however it is cut into nonempty
-- reads, counts the connection once and answers with 101; and a client whose write works opens its
-- socket on that answer, however it is cut into nonempty reads.
pub handle_connection-connect_client :
    (write_ok : Bytes → Bool) (max_sessions_per_ip : ℕ) (ip host path : Bytes) (numbers : List ℕ)
    (reads replies : List Bytes) (counts : Counts)
    → IsText host
    → IsWord path
    → is_empty path ≡ false
    → path_of path ≡ codes "/"
    → ip_count counts ip < max_sessions_per_ip
    → write_ok (switching_response (accept_key (random_key numbers))) ≡ true
    → length (request_headers host path [] (random_key numbers) ++ crlf) ≤ 64 * 1024
    → All (λ c. 0 < length c) reads
    → concat reads ≡ request_headers host path [] (random_key numbers) ++ crlf
    → All (λ c. 0 < length c) replies
    → concat replies ≡ switching_response (accept_key (random_key numbers))
    → (handle_connection write_ok max_sessions_per_ip ip reads counts
        ≡ (upgraded (switching_response (accept_key (random_key numbers))), inc_ip ip counts))
      × (connect_client (λ b. true) numbers host path [] replies ≡ some (open_, []))
handle_connection-connect_client write_ok max ip host path numbers reads replies counts h p n q l w
      m e c k d =
    (
      server_admits write_ok max ip host path (random_key numbers) reads counts h p n q
          (random_key-IsWord numbers) l w m e c,
      client_accepts numbers host path replies k d,
    )
