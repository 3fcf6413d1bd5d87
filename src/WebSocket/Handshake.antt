-- ===== src/WebSocket/Handshake.antt =====
-- The client's side of the upgrade: `randomKey`, `clientHandshake` and `connectClient` of
-- src/common/websocket.cpp.
pub mod Accepted
use github_codespaces_proxy.Base.{
  ℕ, ◌+◌, ◌*◌, Bool, true, false, ◌&&◌, not, Option, none, some, List, [], ◌∷◌, ◌++◌, if◌then◌else◌,
  Bytes, codes, find, take, is_empty, map, bit_and,
}
use github_codespaces_proxy.Base64.{base64_encode}
use github_codespaces_proxy.Util.{to_lower}
use github_codespaces_proxy.Stream.{read_until}
use github_codespaces_proxy.WebSocket.State.{WsState, connecting, open_}
use github_codespaces_proxy.WebSocket.Accept.{accept_key}

abbrev pub crlf : Bytes
crlf = 13 ∷ 10 ∷ []

-- The sixteen numbers are those of the random device.
unfoldable pub random_key : List ℕ → Bytes
unfolding base64_encode
random_key numbers = base64_encode (map (λ n. bit_and n 0xff) numbers)

-- The request line and the headers, less the empty line at the end.
unfoldable pub request_headers : Bytes → Bytes → Bytes → Bytes → Bytes
unfolding is_empty
request_headers host path extra_headers key =
    codes "GET "
    ++ ((if is_empty path then codes "/" else path)
        ++ (codes " HTTP/1.1"
            ++ (crlf
                ++ (codes "Host: "
                    ++ (host
                        ++ (crlf
                            ++ (codes "Upgrade: websocket"
                                ++ (crlf
                                    ++ (codes "Connection: Upgrade"
                                        ++ (crlf
                                            ++ (codes "Sec-WebSocket-Key: "
                                                ++ (key
                                                    ++ (crlf
                                                        ++ (codes "Sec-WebSocket-Version: 13"
                                                            ++ (crlf ++ extra_headers)))))))))))))))

unfoldable pub is_found : Option ℕ → Bool
is_found none = false
is_found (some at) = true

unfoldable pub status_line : Bytes → Bytes
status_line resp = elim (find crlf resp) [ none ↦ resp | some at ↦ take at resp ]

-- Whether the response is one of a server that accepts the key.
unfoldable pub is_accepted : Bytes → Bytes → Bool
unfolding is_found
is_accepted key resp =
    if not (is_found (find (codes " 101") (status_line resp)))
    then false
    else if not (is_found (find (codes "sec-websocket-accept:") (to_lower resp)))
    then false
    else is_found (find (to_lower (accept_key key)) (to_lower resp))

-- Whether the write works and what the reads give are parameters; the result is the state of the
-- socket, with what the stream still holds, and `none` for a failure.
unfoldable pub client_handshake :
    (Bytes → Bool) → Bytes → Bytes → Bytes → Bytes → List Bytes → Option (WsState × List Bytes)
client_handshake write_ok host path extra_headers key reads =
    let answer : Option (WsState × List Bytes) =
      elim (read_until (crlf ++ crlf) (32 * 1024) [] reads) [
        | none ↦ none
        | some (resp, rest) ↦ if is_accepted key resp then some (open_, rest) else none
      ] in
    if not (write_ok (request_headers host path extra_headers key ++ crlf)) then none else answer

-- A socket that is open, or no socket.
unfoldable pub connect_client :
    (Bytes → Bool) → List ℕ → Bytes → Bytes → Bytes → List Bytes → Option (WsState × List Bytes)
connect_client write_ok numbers host path extra_headers reads =
    client_handshake write_ok host path extra_headers (random_key numbers) reads
