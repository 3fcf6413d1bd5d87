-- ===== src/Proxy/Rebuilt.antt =====
-- The request that goes out, read again by whoever receives it.
use github_codespaces_proxy.Base.{
  ℕ, zero, suc, ◌+◌, ◌≡◌, refl, ap, append-nil, append_assoc, ◌∙◌, Bool, true, false, some, List,
  [], ◌∷◌, ◌++◌, arith, Bytes, All, is_empty, codes, find_char, take, drop, length,
  take-append_exact, if◌then◌else◌,
}
use github_codespaces_proxy.Util.{trim}
use github_codespaces_proxy.Proxy.Head.{
  Header, split_lines, chop, parse_headers, RequestHead, is_hop_by_hop, header_lines,
}
use github_codespaces_proxy.Proxy.Lines.{IsLine, IsWord, IsName, split_lines-append, chop-append}

-- What a parsed header is like.
unfoldable pub IsHeader : Header → Type 0
IsHeader (name, value) = IsName name × IsLine name × IsLine value × (trim value ≡ value)

unfoldable pub IsHead : RequestHead → Type 0
IsHead r =
    IsWord r.method
    × (is_empty r.method ≡ false)
    × IsWord r.target
    × (is_empty r.target ≡ false)
    × All IsHeader r.headers

-- The headers that stay, in their order.
unfoldable pub kept : List Header → List Header
kept [] = []
kept ((name, value) ∷ headers) =
    if is_hop_by_hop name then kept headers else (name, value) ∷ kept headers

pub find_char-name : (x s : Bytes) → IsName x → find_char b':' (x ++ b':' ∷ s) ≡ some (length x)
unfolding find_char IsName
find_char-name [] s h = refl
find_char-name (c ∷ x) s h = rw (find_char, find_char-name x s h.1, h.0) refl

chop_line : (x : Bytes) → chop (x ++ 13 ∷ []) ≡ x
unfolding chop
chop_line x = chop-append x 13 [] ∙ append-nil x

pub drop_behind :
    (n : ℕ) (x : Bytes) (c : ℕ) (s : Bytes) → n ≡ suc (length x) → drop n (x ++ c ∷ s) ≡ s
drop_behind zero x c s h = absurd (omega arith)
drop_behind (suc zero) [] c s h = refl
drop_behind (suc (suc n)) [] c s h = absurd (omega arith)
drop_behind (suc n) (d ∷ x) c s h = drop_behind n x c s (omega arith)

one_header :
    (line text_ : Bytes) (c : ℕ) (lines : List Bytes)
    → chop line ≡ text_
    → find_char b':' text_ ≡ some c
    → parse_headers (line ∷ lines) ≡ (take c text_, trim (drop (c + 1) text_)) ∷ parse_headers lines
unfolding parse_headers
one_header line text_ c lines k e = ground (arith, k, e)

-- A header line parses to its header.
read_header :
    (name value : Bytes) (lines : List Bytes)
    → IsHeader (name, value)
    → parse_headers ((name ++ 58 ∷ 32 ∷ (value ++ 13 ∷ [])) ∷ lines)
      ≡ (name, value) ∷ parse_headers lines
unfolding IsHeader trim
read_header name value lines h =
    one_header (name ++ 58 ∷ 32 ∷ (value ++ 13 ∷ [])) (name ++ 58 ∷ 32 ∷ value) (length name) lines
      (chop-append name 58 (32 ∷ (value ++ 13 ∷ []))
        ∙ ap (λ z. name ++ z) (chop_line (58 ∷ 32 ∷ value)))
      (find_char-name name (32 ∷ value) h.0)
    ∙ ap (λ hd. hd ∷ parse_headers lines)
        (rw
          (
            take-append_exact name (58 ∷ 32 ∷ value) (length name) refl,
            drop_behind (length name + 1) name 58 (32 ∷ value) (omega arith),
          )
          (ap (λ v. (name, v)) (h.3)))

read_line :
    (name value s : Bytes)
    → IsHeader (name, value)
    → parse_headers (split_lines (name ++ 58 ∷ 32 ∷ (value ++ 13 ∷ 10 ∷ s)))
      ≡ (name, value) ∷ parse_headers (split_lines s)
unfolding IsHeader split_lines
read_line name value s h =
    ap parse_headers (
      split_lines-append name (58 ∷ 32 ∷ (value ++ 13 ∷ 10 ∷ s)) (58 ∷ 32 ∷ (value ++ 13 ∷ []))
        (split_lines s) h.1
        (split_lines-append (58 ∷ 32 ∷ value) (13 ∷ 10 ∷ s) (13 ∷ []) (split_lines s)
          (unfold IsLine in (refl, (refl, h.2))) refl))
    ∙ read_header name value (split_lines s) h

read_lines-if :
    (b : Bool) (name value rest s : Bytes) (hs more : List Header)
    → IsHeader (name, value)
    → parse_headers (split_lines (rest ++ s)) ≡ hs ++ more
    → parse_headers
        (split_lines ((if b then rest else name ++ (codes ": " ++ (value ++ 13 ∷ 10 ∷ rest))) ++ s))
      ≡ (if b then hs else (name, value) ∷ hs) ++ more
read_lines-if true name value rest s hs more h k = k
read_lines-if false name value rest s hs more h k =
    ap (λ z. parse_headers (split_lines z))
      (append_assoc name (58 ∷ 32 ∷ (value ++ 13 ∷ 10 ∷ rest)) s
        ∙ ap (λ z. name ++ 58 ∷ 32 ∷ z) (append_assoc value (13 ∷ 10 ∷ rest) s))
    ∙ read_line name value (rest ++ s) h
    ∙ ap (◌∷◌ (name, value)) k

pub read_lines :
    (headers : List Header) (s : Bytes)
    → All IsHeader headers
    → parse_headers (split_lines (header_lines headers ++ s))
      ≡ kept headers ++ parse_headers (split_lines s)
unfolding header_lines kept
read_lines [] s h = refl
read_lines ((name, value) ∷ headers) s h =
    read_lines-if (is_hop_by_hop name) name value (header_lines headers) s (kept headers)
      (parse_headers (split_lines s)) h.0 (read_lines headers s h.1)
