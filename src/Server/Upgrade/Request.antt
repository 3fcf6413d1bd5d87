-- ===== src/Server/Upgrade/Request.antt =====
-- The head of the client's request, as the server reads it.
use github_codespaces_proxy.Base.{
  ◌≡◌, refl, ap, ◌∙◌, append-nil, append_assoc, Bool, true, false, ◌&&◌, not, List, [], ◌∷◌, ◌++◌,
  arith, ◌==◌, Bytes, All-append, All-map, codes, find_char, is_empty, is_space,
}
use github_codespaces_proxy.Util.{to_lower, trim}
use github_codespaces_proxy.Util.Trim.{trim-word}
use github_codespaces_proxy.Stream.Split.{NoReturn}
use github_codespaces_proxy.Proxy.Head.{split_lines, chop}
use github_codespaces_proxy.Proxy.Lines.{
  IsLine, IsWord, IsWord-IsLine, split_lines-append, chop-append,
}
use github_codespaces_proxy.WebSocket.Handshake.{crlf, request_headers}
use github_codespaces_proxy.Server.Upgrade.{Headers, put_header, add_header, add_headers, head_end}

-- The head of the client's request, line by line.
unfoldable pub request_line : Bytes → Bytes
request_line path = codes "GET " ++ (path ++ codes " HTTP/1.1")

unfoldable pub version_line : Bytes
version_line = codes "Sec-WebSocket-Version: 13"

unfoldable pub request_head : Bytes → Bytes → Bytes → Bytes
request_head host path key =
    request_line path
    ++ (crlf
        ++ ((codes "Host: " ++ host)
            ++ (crlf
                ++ (codes "Upgrade: websocket"
                    ++ (crlf
                        ++ (codes "Connection: Upgrade"
                            ++ (crlf
                                ++ ((codes "Sec-WebSocket-Key: " ++ key)
                                    ++ (crlf ++ version_line)))))))))

pub request_head-request :
    (host path key : Bytes)
    → is_empty path ≡ false
    → request_headers host path [] key ++ crlf ≡ request_head host path key ++ head_end
unfolding request_headers request_head request_line version_line
request_head-request host path key h = rw h (simp (append_assoc) refl)

split_lines-line :
    (x s : Bytes) → IsLine x → split_lines (x ++ (crlf ++ s)) ≡ (x ++ 13 ∷ []) ∷ split_lines s
unfolding split_lines
split_lines-line x s h = split_lines-append x (crlf ++ s) (13 ∷ []) (split_lines s) h refl

unfoldable pub lines_of : Bytes → Bytes → Bytes → List Bytes
lines_of host path key =
    (request_line path ++ 13 ∷ [])
    ∷ ((codes "Host: " ++ host) ++ 13 ∷ [])
    ∷ (codes "Upgrade: websocket" ++ 13 ∷ [])
    ∷ (codes "Connection: Upgrade" ++ 13 ∷ [])
    ∷ ((codes "Sec-WebSocket-Key: " ++ key) ++ 13 ∷ [])
    ∷ version_line
    ∷ []

pub chop_return : (x : Bytes) → chop (x ++ 13 ∷ []) ≡ x
unfolding chop
chop_return x = chop-append x 13 [] ∙ append-nil x

-- The headers that the server keeps.
unfoldable pub headers_of : Bytes → Bytes → Headers
headers_of host key =
    (codes "host", host)
    ∷ (codes "upgrade", codes "websocket")
    ∷ (codes "connection", codes "Upgrade")
    ∷ (codes "sec-websocket-key", key)
    ∷ (codes "sec-websocket-version", codes "13")
    ∷ []

host_added :
    (host : Bytes) → add_header (codes "Host: " ++ host) [] ≡ (codes "host", trim host) ∷ []
unfolding add_header trim find_char put_header to_lower
host_added host = refl

key_added :
    (host key : Bytes)
    → add_header (codes "Sec-WebSocket-Key: " ++ key) (
        (codes "host", host)
        ∷ (codes "upgrade", codes "websocket")
        ∷ (codes "connection", codes "Upgrade")
        ∷ [])
      ≡ (codes "host", host)
        ∷ (codes "upgrade", codes "websocket")
        ∷ (codes "connection", codes "Upgrade")
        ∷ (codes "sec-websocket-key", trim key)
        ∷ []
unfolding add_header trim find_char put_header to_lower
key_added host key = refl

-- A test of what a header may hold.
unfoldable pub is_text : Bytes → Bool
is_text [] = true
is_text (c ∷ s) = not (c == 10) && not (13 == c) && is_text s

unfoldable pub IsText : Bytes → Type 0
IsText s = IsLine s × NoReturn s

pub is_text-IsText : (s : Bytes) → is_text s ≡ true → IsText s
unfolding is_text IsText IsLine NoReturn
is_text-IsText [] h = (tt, tt)
is_text-IsText (c ∷ s) h =
    let rest = is_text-IsText s (ground arith) in ((ground arith, rest.0), (ground arith, rest.1))

pub append-IsText : (x y : Bytes) → IsText x → IsText y → IsText (x ++ y)
unfolding IsText IsLine NoReturn
append-IsText x y h k = (All-append _ x y h.0 k.0, All-append _ x y h.1 k.1)

pub IsWord-IsText : (s : Bytes) → IsWord s → IsText s
unfolding IsText NoReturn IsWord is_space
IsWord-IsText s h = (IsWord-IsLine s h, All-map (λ c e. ground arith) s h)

pub lines_of-IsLines :
    (host path key : Bytes)
    → IsText (request_line path)
    → IsText (codes "Host: " ++ host)
    → IsText (codes "Sec-WebSocket-Key: " ++ key)
    → split_lines (request_head host path key) ≡ lines_of host path key
unfolding request_head lines_of version_line IsText is_text
lines_of-IsLines host path key p h k =
    split_lines-line (request_line path) _ p.0
    ∙ ap (λ z. (request_line path ++ 13 ∷ []) ∷ z)
        (split_lines-line (codes "Host: " ++ host) _ h.0
          ∙ ap (λ z. ((codes "Host: " ++ host) ++ 13 ∷ []) ∷ z)
              (split_lines-line (codes "Upgrade: websocket") _
                  (is_text-IsText (codes "Upgrade: websocket") refl).0
                ∙ ap (λ z. (codes "Upgrade: websocket" ++ 13 ∷ []) ∷ z)
                    (split_lines-line (codes "Connection: Upgrade") _
                        (is_text-IsText (codes "Connection: Upgrade") refl).0
                      ∙ ap (λ z. (codes "Connection: Upgrade" ++ 13 ∷ []) ∷ z)
                          (split_lines-line (codes "Sec-WebSocket-Key: " ++ key) version_line k.0
                            ∙ ap (λ z. ((codes "Sec-WebSocket-Key: " ++ key) ++ 13 ∷ []) ∷ z)
                                last_line))))
  where
    last_line : split_lines version_line ≡ version_line ∷ []
    last_line = unfold split_lines in refl

rest_added :
    (host key : Bytes)
    → (add_header (codes "Upgrade: websocket") ((codes "host", host) ∷ [])
        ≡ (codes "host", host) ∷ (codes "upgrade", codes "websocket") ∷ [])
      × (add_header
            (codes "Connection: Upgrade")
            ((codes "host", host) ∷ (codes "upgrade", codes "websocket") ∷ [])
          ≡ (codes "host", host)
            ∷ (codes "upgrade", codes "websocket")
            ∷ (codes "connection", codes "Upgrade")
            ∷ [])
      × (add_header version_line (
            (codes "host", host)
            ∷ (codes "upgrade", codes "websocket")
            ∷ (codes "connection", codes "Upgrade")
            ∷ (codes "sec-websocket-key", key)
            ∷ [])
          ≡ headers_of host key)
unfolding add_header trim find_char put_header to_lower version_line headers_of
rest_added host key = (refl, refl, refl)

pub headers-added :
    (host key : Bytes)
    → IsWord key
    → add_headers
        (((codes "Host: " ++ host) ++ 13 ∷ [])
          ∷ (codes "Upgrade: websocket" ++ 13 ∷ [])
          ∷ (codes "Connection: Upgrade" ++ 13 ∷ [])
          ∷ ((codes "Sec-WebSocket-Key: " ++ key) ++ 13 ∷ [])
          ∷ version_line
          ∷ [])
        []
      ≡ headers_of (trim host) key
unfolding add_headers IsWord
headers-added host key k =
    let r = rest_added (trim host) key in
    rw
      (
        chop_return (codes "Host: " ++ host),
        host_added host,
        chop_return (codes "Upgrade: websocket"),
        r.0,
        chop_return (codes "Connection: Upgrade"),
        r.1,
        chop_return (codes "Sec-WebSocket-Key: " ++ key),
        key_added (trim host) key,
        trim-word key k,
        chop_version,
      )
      r.2
  where
    chop_version : chop version_line ≡ version_line
    chop_version = unfold chop version_line in refl
