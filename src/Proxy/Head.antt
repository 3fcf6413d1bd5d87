-- ===== src/Proxy/Head.antt =====
-- `parseRequestHead`, `isHopByHop` and the request that `handleConn` rebuilds.
use github_codespaces_proxy.Base.{
  ℕ, ◌+◌, Bool, false, Option, none, some, ◌||◌, List, [], ◌∷◌, ◌++◌, ◌==◌, if◌then◌else◌, Bytes,
  codes, is_empty, is_space, find_char, take, drop, text_eq,
}
use github_codespaces_proxy.Util.{to_lower, trim}

abbrev pub Header : Type 0
Header = Bytes × Bytes

-- A character in front of the first of two texts.
unfoldable pub cons_line : ℕ → Bytes × Bytes → Bytes × Bytes
cons_line c (line, rest) = (c ∷ line, rest)

-- All lines, as `getline` gives them until it fails: none for an empty text, and no empty one behind
-- a last line feed.
unfoldable pub cons_first : ℕ → List Bytes → List Bytes
cons_first c [] = (c ∷ []) ∷ []
cons_first c (line ∷ lines) = (c ∷ line) ∷ lines

unfoldable pub split_lines : Bytes → List Bytes
unfolding cons_first
split_lines [] = []
split_lines (c ∷ cs) = let rest = split_lines cs in if c == 10 then [] ∷ rest else cons_first c rest

-- A carriage return at the end goes.
unfoldable pub chop : Bytes → Bytes
chop [] = []
chop (c ∷ []) = if c == 13 then [] else c ∷ []
chop (c ∷ d ∷ cs) = c ∷ chop (d ∷ cs)

-- `ls >> word`: the blanks in front go; a word ends before a blank or with the text.
unfoldable pub get_word : Bytes → Bytes × Bytes
unfolding is_space cons_line
get_word [] = ([], [])
get_word (c ∷ cs) =
    let rest = cons_line c (get_word cs) in if is_space c then ([], c ∷ cs) else rest

unfoldable pub drop_blanks : Bytes → Bytes
unfolding is_space
drop_blanks [] = []
drop_blanks (c ∷ cs) = let rest = drop_blanks cs in if is_space c then rest else c ∷ cs

unfoldable pub next_word : Bytes → Bytes × Bytes
unfolding drop_blanks get_word
next_word s = get_word (drop_blanks s)

-- The headers of the lines behind the first one; lines without a colon are skipped.
unfoldable pub parse_headers : List Bytes → List Header
unfolding chop find_char trim
parse_headers [] = []
parse_headers (line ∷ lines) =
    let rest = parse_headers lines in
    let text_ = chop line in
    elim (find_char b':' text_) [
      | none ↦ rest
      | some c ↦ (take c text_, trim (drop (c + 1) text_)) ∷ rest
    ]

pub record RequestHead : Type 0 where
  pub method : Bytes
  pub target : Bytes
  pub version : Bytes
  pub headers : List Header

unfoldable pub parse_lines : List Bytes → Option RequestHead
unfolding chop next_word is_empty parse_headers
parse_lines [] = none
parse_lines (first ∷ lines) =
    let m = next_word (chop first) in
    let t = next_word m.1 in
    let v = next_word t.1 in
    if is_empty m.0 || is_empty t.0
    then none
    else some (record { method = m.0; target = t.0; version = v.0; headers = parse_headers lines })

unfoldable pub parse_request_head : Bytes → Option RequestHead
unfolding split_lines parse_lines
parse_request_head head = parse_lines (split_lines head)

abbrev pub hop_by_hop_names : List Bytes
hop_by_hop_names =
    codes "proxy-connection"
    ∷ codes "proxy-authorization"
    ∷ codes "proxy-authenticate"
    ∷ codes "keep-alive"
    ∷ codes "transfer-encoding"
    ∷ codes "connection"
    ∷ codes "upgrade"
    ∷ codes "te"
    ∷ codes "trailer"
    ∷ []

unfoldable pub any_equal : Bytes → List Bytes → Bool
unfolding text_eq
any_equal lower [] = false
any_equal lower (n ∷ names) = text_eq lower n || any_equal lower names

unfoldable pub is_hop_by_hop : Bytes → Bool
unfolding to_lower any_equal
is_hop_by_hop name = any_equal (to_lower name) hop_by_hop_names

-- The header lines of the request that goes out.
unfoldable pub header_lines : List Header → Bytes
unfolding is_hop_by_hop
header_lines [] = []
header_lines ((name, value) ∷ headers) =
    let rest = header_lines headers in
    if is_hop_by_hop name then rest else name ++ (codes ": " ++ (value ++ 13 ∷ 10 ∷ rest))

unfoldable pub rebuild : RequestHead → Bytes
unfolding header_lines
rebuild r =
    r.method
    ++ (codes " "
        ++ (r.target
            ++ (codes " HTTP/1.1"
                ++ (13
                    ∷ 10
                    ∷ (header_lines r.headers
                        ++ (codes "Connection: close" ++ 13 ∷ 10 ∷ 13 ∷ 10 ∷ []))))))
