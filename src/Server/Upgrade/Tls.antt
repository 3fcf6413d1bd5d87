-- ===== src/Server/Upgrade/Tls.antt =====
-- The same for a TLS stream, as the thread of `main` in src/server/main.cpp writes it out.
use github_codespaces_proxy.Base.{
  ℕ, ◌-◌, ◌*◌, Bool, ◌&&◌, ◌||◌, not, Option, none, some, List, [], ◌∷◌, ◌++◌, leb, if◌then◌else◌,
  Bytes, codes, take, drop, length, text_eq, to_string,
}
use github_codespaces_proxy.Proxy.Head.{split_lines}
use github_codespaces_proxy.WebSocket.Handshake.{crlf}
use github_codespaces_proxy.Server.Counts.{Counts}
use github_codespaces_proxy.Server.Upgrade.{
  HttpHead, add_headers, request_words, head_end, path_of, is_upgrade, Admission, unread, refused,
  admit,
}

-- The TLS stream is read byte by byte, until the text ends with an empty line.
unfoldable pub ends_head : Bytes → Bool
ends_head acc = leb 4 (length acc) && text_eq (drop (length acc - 4) acc) head_end

unfoldable pub read_tls_head : ℕ → Bytes → Bytes → Option (Bytes × Bytes)
read_tls_head max_bytes acc [] = none
read_tls_head max_bytes acc (c ∷ input) =
    let more = acc ++ c ∷ [] in
    let rest = read_tls_head max_bytes more input in
    if leb max_bytes (length acc) then none else if ends_head more then some (more, input) else rest

-- The head of a TLS connection; a missing method or target is let pass.
unfoldable pub tls_lines : Bytes → List Bytes → HttpHead
tls_lines raw [] = record {
  method = [];
  target = [];
  version = [];
  headers = [];
  raw = raw;
  body_prefix = [];
}
tls_lines raw (first ∷ lines) =
    let w = request_words first in
    record {
      method = w.0;
      target = w.1;
      version = w.2;
      headers = add_headers lines [];
      raw = raw;
      body_prefix = [];
    }

unfoldable pub tls_answer : (Bytes → Bool) → ℕ → Bytes → HttpHead → Counts → Admission × Counts
tls_answer write_ok max_sessions_per_ip ip req counts =
    let body = codes "400 Bad Request" ++ 10 ∷ [] in
    if not (is_upgrade req.headers) || not (text_eq (path_of req.target) (codes "/"))
    then (
      refused (
          codes "HTTP/1.1 400 Bad Request"
          ++ crlf
          ++ codes "Content-Length: "
          ++ to_string (length body)
          ++ crlf
          ++ codes "Connection: close"
          ++ crlf
          ++ crlf
          ++ body),
      counts,
    )
    else admit write_ok (refused []) max_sessions_per_ip ip req counts

unfoldable pub handle_tls : (Bytes → Bool) → ℕ → Bytes → Bytes → Counts → Admission × Counts
handle_tls write_ok max_sessions_per_ip ip input counts =
    elim (read_tls_head (64 * 1024) [] input) [
      | none ↦ (unread, counts)
      | some (acc, rest) ↦
          let raw = take (length acc - 4) acc in
          tls_answer write_ok max_sessions_per_ip ip (tls_lines raw (split_lines raw)) counts
    ]
