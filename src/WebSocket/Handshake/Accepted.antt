-- ===== src/WebSocket/Handshake/Accepted.antt =====
-- The response of the server, as the client checks it.
use github_codespaces_proxy.Base.{
  ℕ, ◌≡◌, refl, ap, ◌∙◌, true, false, Option, some, [], ◌∷◌, ◌++◌, Bytes, codes, find,
  to_lower_char, length, is_space, All,
}
use github_codespaces_proxy.Base.Search.{find-append, find-inside}
use github_codespaces_proxy.Base64.{base64_encode}
use github_codespaces_proxy.Base64.Plain.{base64-IsPlain}
use github_codespaces_proxy.Sha1.{sha1_hash}
use github_codespaces_proxy.Util.{to_lower}
use github_codespaces_proxy.WebSocket.Accept.{accept_key}
use github_codespaces_proxy.WebSocket.Handshake.{crlf, is_found, status_line, is_accepted}

pub to_lower-append : (xs ys : Bytes) → to_lower (xs ++ ys) ≡ to_lower xs ++ to_lower ys
unfolding to_lower
to_lower-append [] ys = refl
to_lower-append (c ∷ xs) ys = ap (◌∷◌ (to_lower_char c)) (to_lower-append xs ys)

-- The response up to the key, and in lower case.
abbrev pub response_front : Bytes
response_front =
    codes "HTTP/1.1 101 Switching Protocols"
    ++ (crlf
        ++ (codes "Upgrade: websocket"
            ++ (crlf ++ (codes "Connection: Upgrade" ++ (crlf ++ codes "Sec-WebSocket-Accept: ")))))

front-named :
    (rest : Bytes)
    → find (codes "sec-websocket-accept:") (to_lower (response_front ++ rest)) ≡ some 75
unfolding find to_lower
front-named rest =
    ap (find (codes "sec-websocket-accept:")) (to_lower-append response_front rest)
    ∙ find-append (codes "sec-websocket-accept:") (to_lower response_front) (to_lower rest) 75 refl

is_found-some : (o : Option ℕ) (i : ℕ) → o ≡ some i → is_found o ≡ true
unfolding is_found
is_found-some o i h = rw h refl

key-found :
    (accept rest : Bytes)
    → is_found (find (to_lower accept) (to_lower (response_front ++ (accept ++ rest)))) ≡ true
key-found accept rest =
    let inside = find-inside (to_lower response_front) (to_lower accept) (to_lower rest) in
    is_found-some _ inside.0 (
      ap (find (to_lower accept)) (
        to_lower-append response_front (accept ++ rest)
        ∙ ap (λ z. to_lower response_front ++ z) (to_lower-append accept rest))
      ∙ inside.1)

status-found :
    (rest : Bytes) → is_found (find (codes " 101") (status_line (response_front ++ rest))) ≡ true
unfolding status_line is_found find
status-found rest = refl

pub is_accepted-front :
    (key rest : Bytes) → is_accepted key (response_front ++ (accept_key key ++ rest)) ≡ true
unfolding is_accepted
is_accepted-front key rest =
    let text_ = accept_key key ++ rest in
    rw
      (
        is_accepted,
        status-found text_,
        front-named text_,
        is_found,
        key-found (accept_key key) rest,
      )
      refl

-- A digest is twenty bytes, so an accepted key has 28 characters, and none is a blank.
pub accept_key-length : (key : Bytes) → length (accept_key key) ≡ 28
unfolding accept_key base64_encode sha1_hash
accept_key-length key = refl

pub accept_key-IsPlain : (key : Bytes) → All (λ c. is_space c ≡ false) (accept_key key)
unfolding accept_key
accept_key-IsPlain key =
    base64-IsPlain (sha1_hash (key ++ codes "258EAFA5-E914-47DA-95CA-C5AB0DC85B11"))
