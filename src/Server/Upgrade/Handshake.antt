-- ===== src/Server/Upgrade/Handshake.antt =====
-- The upgrade, seen from both ends.
use github_codespaces_proxy.Base.{
  ℕ, ◌<◌, ◌≡◌, refl, append_assoc, Bool, true, false, Option, some, [], ◌∷◌, ◌++◌, arith, ◌==◌,
  Bytes, codes, is_empty, is_space, text_eq_self,
}
use github_codespaces_proxy.Util.{trim, iequals}
use github_codespaces_proxy.Stream.Split.{
  IsEnded, NoReturn, append-IsEnded, return-IsEnded, empty_line-IsEnded,
}
use github_codespaces_proxy.Proxy.Head.{next_word}
use github_codespaces_proxy.Proxy.Lines.{IsWord, next_word-append}
use github_codespaces_proxy.WebSocket.Accept.{accept_key}
use github_codespaces_proxy.WebSocket.Handshake.{crlf, is_accepted}
use github_codespaces_proxy.WebSocket.Handshake.Accepted.{is_accepted-front}
use github_codespaces_proxy.Server.Counts.{Counts, ip_count, inc_ip}
use github_codespaces_proxy.Server.Upgrade.{
  get_header, HttpHead, request_words, parse_http_lines, head_end, path_of, is_upgrade, key_of,
  switching_response, upgraded, admit, answer,
}
use github_codespaces_proxy.Server.Upgrade.Request.{
  request_line, version_line, request_head, lines_of, chop_return, headers_of, is_text, IsText,
  is_text-IsText, headers-added,
}

pub is_accepted-switching_response :
    (key : Bytes) → is_accepted key (switching_response (accept_key key)) ≡ true
unfolding switching_response
is_accepted-switching_response key = is_accepted-front key (crlf ++ crlf)

-- The request as the server parses it.
pub data IsRequest (host path key : Bytes) (o : Option HttpHead) : Type 0 where
  is_request :
      (r : HttpHead)
      → o ≡ some r
      → r.target ≡ path
      → r.headers ≡ headers_of (trim host) key
      → IsRequest host path key o

method_word :
    (path : Bytes) → next_word (request_line path) ≡ (codes "GET", 32 ∷ (path ++ codes " HTTP/1.1"))
unfolding next_word request_line is_space
method_word path = refl

target_word :
    (d : ℕ) (path : Bytes)
    → IsWord (d ∷ path)
    → next_word (32 ∷ (d ∷ path ++ codes " HTTP/1.1")) ≡ (d ∷ path, codes " HTTP/1.1")
unfolding next_word is_space
target_word d path h = next_word-append d path 32 (codes "HTTP/1.1") h refl

words :
    (d : ℕ) (path : Bytes)
    → IsWord (d ∷ path)
    → ((request_words (request_line (d ∷ path) ++ 13 ∷ [])).0 ≡ codes "GET")
      × ((request_words (request_line (d ∷ path) ++ 13 ∷ [])).1 ≡ d ∷ path)
unfolding request_words
words d path h = (
  rw (chop_return (request_line (d ∷ path)), method_word (d ∷ path)) refl,
  rw (chop_return (request_line (d ∷ path)), method_word (d ∷ path), target_word d path h) refl,
)

pub parse-IsRequest :
    (host path key head : Bytes)
    → IsWord path
    → is_empty path ≡ false
    → IsWord key
    → IsRequest host path key (parse_http_lines head [] (lines_of host path key))
unfolding parse_http_lines lines_of is_empty
parse-IsRequest host [] key head h e k = absurd (ground arith)
parse-IsRequest host (d ∷ path) key head h e k =
    let w = words d path h in
    rw (parse_http_lines, w.0, w.1) (is_request _ refl refl (headers-added host key k))

pub line-IsEnded :
    (x : Bytes) (c : ℕ) (s : Bytes)
    → IsText x
    → (13 == c) ≡ false
    → IsEnded (c ∷ s)
    → IsEnded (x ++ (crlf ++ c ∷ s))
unfolding IsText
line-IsEnded x c s h e k = append-IsEnded x (crlf ++ c ∷ s) h.1 (return-IsEnded c s e k)

unfoldable pub request_text : Bytes → Bytes → Bytes → Bytes
request_text host path key =
    request_line path
    ++ (crlf
        ++ ((codes "Host: " ++ host)
            ++ (crlf
                ++ (codes "Upgrade: websocket"
                    ++ (crlf
                        ++ (codes "Connection: Upgrade"
                            ++ (crlf
                                ++ ((codes "Sec-WebSocket-Key: " ++ key)
                                    ++ (crlf
                                        ++ (codes "Sec-WebSocket-Version: 13" ++ head_end))))))))))

pub request_text-request_head :
    (host path key : Bytes) → request_text host path key ≡ request_head host path key ++ head_end
unfolding request_text request_head version_line request_line
request_text-request_head host path key = simp (append_assoc) refl

version-NoReturn : NoReturn (codes "Sec-WebSocket-Version: 13")
unfolding is_text IsText
version-NoReturn = (is_text-IsText (codes "Sec-WebSocket-Version: 13") refl).1

pub request_text-IsEnded :
    (host path key : Bytes)
    → IsText (request_line path)
    → IsText (codes "Host: " ++ host)
    → IsText (codes "Sec-WebSocket-Key: " ++ key)
    → IsEnded (request_text host path key)
unfolding request_text is_text
request_text-IsEnded host path key p h k = line-IsEnded (request_line path) _ _ p refl (
    line-IsEnded (codes "Host: " ++ host) _ _ h refl (
      line-IsEnded (codes "Upgrade: websocket") _ _
        (is_text-IsText (codes "Upgrade: websocket") refl) refl
        (line-IsEnded (codes "Connection: Upgrade") _ _
          (is_text-IsText (codes "Connection: Upgrade") refl) refl
          (line-IsEnded (codes "Sec-WebSocket-Key: " ++ key) _ _ k refl (
            append-IsEnded (codes "Sec-WebSocket-Version: 13") head_end version-NoReturn
              empty_line-IsEnded)))))

is_upgrade-headers_of :
    (host key : Bytes)
    → (is_upgrade (headers_of host key) ≡ true) × (key_of (headers_of host key) ≡ key)
unfolding is_upgrade key_of headers_of get_header iequals
is_upgrade-headers_of host key = (refl, refl)

pub answer-request :
    (write_ok : Bytes → Bool) (max_sessions_per_ip : ℕ) (ip host path key : Bytes) (r : HttpHead)
    (counts : Counts)
    → r.target ≡ path
    → r.headers ≡ headers_of (trim host) key
    → path_of path ≡ codes "/"
    → ip_count counts ip < max_sessions_per_ip
    → write_ok (switching_response (accept_key key)) ≡ true
    → answer write_ok max_sessions_per_ip ip r counts
      ≡ (upgraded (switching_response (accept_key key)), inc_ip ip counts)
unfolding answer admit
answer-request write_ok max ip host path key r counts t e p l w =
    let u = is_upgrade-headers_of (trim host) key in
    rw (answer, e, u.0, t, p, admit, u.1, w) (ground (arith, text_eq_self (codes "/")))
