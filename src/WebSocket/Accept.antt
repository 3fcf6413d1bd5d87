-- ===== src/WebSocket/Accept.antt =====
-- `WebSocket::acceptKey`.
use github_codespaces_proxy.Base.{◌++◌, Bytes, codes}
use github_codespaces_proxy.Base64.{base64_encode}
use github_codespaces_proxy.Sha1.{sha1_hash}

unfoldable pub accept_key : Bytes → Bytes
unfolding base64_encode sha1_hash
accept_key client_key =
    base64_encode (sha1_hash (client_key ++ codes "258EAFA5-E914-47DA-95CA-C5AB0DC85B11"))
