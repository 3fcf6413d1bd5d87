-- ===== src/Proxy/Reread.antt =====
-- What `parseRequestHead` gives is a head that can be read again after it was rebuilt.
use github_codespaces_proxy.Base.{
  ℕ, ◌≡◌, refl, ap, ◌∙◌, some, List, [], ◌∷◌, ◌++◌, arith, Bytes, is_space, is_empty, codes,
}
use github_codespaces_proxy.Proxy.Head.{
  Header, split_lines, chop, next_word, drop_blanks, parse_headers, RequestHead, parse_lines,
  parse_request_head, rebuild, header_lines,
}
use github_codespaces_proxy.Proxy.Lines.{
  IsLine, IsWord, IsWord-IsLine, split_lines-append, chop-append, next_word-append,
}
use github_codespaces_proxy.Proxy.Rebuilt.{IsHead, kept, read_lines}
use github_codespaces_proxy.Proxy.Parsed.{split_lines-IsLine, parse_lines-IsHead}

first_line : Bytes → Bytes → Bytes → Bytes
first_line method target end_ = method ++ (32 ∷ (target ++ (codes " HTTP/1.1" ++ end_)))

space-IsLine : (t : Bytes) → IsWord t → IsLine (32 ∷ t)
unfolding IsLine
space-IsLine t h = (refl, IsWord-IsLine t h)

version-IsLine : IsLine (codes " HTTP/1.1")
unfolding IsLine
version-IsLine = (refl, (refl, (refl, (refl, (refl, (refl, (refl, (refl, (refl, tt)))))))))

chop-first_line :
    (method target : Bytes)
    → chop (first_line method target (13 ∷ [])) ≡ first_line method target []
unfolding first_line chop
chop-first_line method target =
    chop-append method 32 (target ++ (codes " HTTP/1.1" ++ 13 ∷ []))
    ∙ ap (λ z. method ++ z) (chop-append (32 ∷ target) 32 (codes "HTTP/1.1" ++ 13 ∷ []))

first_words :
    (d e : ℕ) (method target : Bytes)
    → IsWord (d ∷ method)
    → IsWord (e ∷ target)
    → next_word (first_line (d ∷ method) (e ∷ target) [])
      ≡ (d ∷ method, 32 ∷ (e ∷ target ++ codes " HTTP/1.1"))
unfolding first_line is_space
first_words d e method target h k =
    next_word-append d method 32 (e ∷ target ++ codes " HTTP/1.1") h refl

second_words :
    (e : ℕ) (target : Bytes)
    → IsWord (e ∷ target)
    → next_word (32 ∷ (e ∷ target ++ codes " HTTP/1.1")) ≡ (e ∷ target, codes " HTTP/1.1")
unfolding next_word drop_blanks is_space
second_words e target k = next_word-append e target 32 (codes "HTTP/1.1") k refl

third_words : next_word (codes " HTTP/1.1") ≡ (codes "HTTP/1.1", [])
unfolding next_word
third_words = refl

read_first :
    (d e : ℕ) (method target : Bytes) (lines : List Bytes)
    → IsWord (d ∷ method)
    → IsWord (e ∷ target)
    → parse_lines (first_line (d ∷ method) (e ∷ target) (13 ∷ []) ∷ lines)
      ≡ some (record {
        method = d ∷ method;
        target = e ∷ target;
        version = codes "HTTP/1.1";
        headers = parse_headers lines;
      })
unfolding parse_lines is_empty
read_first d e method target lines h k =
    rw
      (
        parse_lines,
        chop-first_line (d ∷ method) (e ∷ target),
        first_words d e method target h k,
        second_words e target k,
      )
      (ap
        (λ w. some (record {
          method = d ∷ method;
          target = e ∷ target;
          version = w.0;
          headers = parse_headers lines;
        }))
        third_words)

last_lines :
    parse_headers (split_lines (codes "Connection: close" ++ 13 ∷ 10 ∷ 13 ∷ 10 ∷ []))
    ≡ (codes "Connection", codes "close") ∷ []
unfolding parse_headers split_lines
last_lines = refl

-- The head as its receiver reads it.
unfoldable pub forwarded : RequestHead → RequestHead
unfolding kept
forwarded r = record r {
  version = codes "HTTP/1.1";
  headers = kept r.headers ++ (codes "Connection", codes "close") ∷ [];
}

rebuilt_lines :
    (m t v : Bytes) (hs : List Header)
    → IsWord m
    → IsWord t
    → split_lines (rebuild (record { method = m; target = t; version = v; headers = hs }))
      ≡ first_line m t (13 ∷ [])
        ∷ split_lines (header_lines hs ++ (codes "Connection: close" ++ 13 ∷ 10 ∷ 13 ∷ 10 ∷ []))
unfolding rebuild first_line split_lines
rebuilt_lines m t v hs h k =
    let ends = codes "Connection: close" ++ 13 ∷ 10 ∷ 13 ∷ 10 ∷ [] in
    let rest = header_lines hs ++ ends in
    split_lines-append m (32 ∷ (t ++ (codes " HTTP/1.1" ++ 13 ∷ 10 ∷ rest))) _ (split_lines rest)
      (IsWord-IsLine m h)
      (split_lines-append (32 ∷ t) (codes " HTTP/1.1" ++ 13 ∷ 10 ∷ rest) _ (split_lines rest)
        (space-IsLine t k)
        (split_lines-append (codes " HTTP/1.1") (13 ∷ 10 ∷ rest) (13 ∷ []) (split_lines rest)
          version-IsLine refl))

parse-rebuild_fields :
    (m t v : Bytes) (hs : List Header)
    → let r : RequestHead = record { method = m; target = t; version = v; headers = hs } in
      IsHead r → parse_request_head (rebuild r) ≡ some (forwarded r)
unfolding parse_request_head forwarded IsHead is_empty
parse-rebuild_fields [] t v hs h = absurd (ground arith)
parse-rebuild_fields (d ∷ m) [] v hs h = absurd (ground arith)
parse-rebuild_fields (d ∷ m) (e ∷ t) v hs h =
    ap parse_lines (rebuilt_lines (d ∷ m) (e ∷ t) v hs h.0 h.2)
    ∙ read_first d e m t
        (split_lines (header_lines hs ++ (codes "Connection: close" ++ 13 ∷ 10 ∷ 13 ∷ 10 ∷ []))) h.0
        h.2
    ∙ ap
        (λ l.
          some (record { method = d ∷ m; target = e ∷ t; version = codes "HTTP/1.1"; headers = l }))
        (read_lines hs (codes "Connection: close" ++ 13 ∷ 10 ∷ 13 ∷ 10 ∷ []) h.4
          ∙ ap (λ l. kept hs ++ l) last_lines)

parse-rebuild : (r : RequestHead) → IsHead r → parse_request_head (rebuild r) ≡ some (forwarded r)
parse-rebuild r h = parse-rebuild_fields r.method r.target r.version r.headers h

-- The request that the local proxy rebuilds from a head that it could parse is parsed, by the same
-- function, as the same method and target, version HTTP/1.1, and the headers without the
-- hop-by-hop ones in their order, with Connection: close behind them.
pub rebuild-reparsed :
    (head : Bytes) (r : RequestHead)
    → parse_request_head head ≡ some r
    → parse_request_head (rebuild r) ≡ some (forwarded r)
unfolding parse_request_head
rebuild-reparsed head r h =
    parse-rebuild r (parse_lines-IsHead (split_lines head) r (split_lines-IsLine head) h)
