-- ===== src/Proxy/Parsed.antt =====
-- What `parseRequestHead` makes of a head.
use github_codespaces_proxy.Base.{
  ℕ, zero, suc, ◌+◌, ◌≡◌, refl, subst, Bool, true, false, Option, none, some, ◌||◌, List, [], ◌∷◌,
  arith, ◌==◌, inl, inr, Bytes, All, Bool-cases, Option-cases, is_space, find_char, take, drop,
  if◌then◌else◌,
}
use github_codespaces_proxy.Util.{trim}
use github_codespaces_proxy.Util.Trim.{trim-trim}
use github_codespaces_proxy.Proxy.Head.{
  Header, cons_line, cons_first, split_lines, chop, get_word, next_word, drop_blanks, parse_headers,
  RequestHead, parse_lines,
}
use github_codespaces_proxy.Proxy.Lines.{IsLine, IsWord, IsName, All-take, All-drop, All-trim}
use github_codespaces_proxy.Proxy.Rebuilt.{IsHeader, IsHead}

split_lines-if :
    (b : Bool) (c : ℕ) (ls : List Bytes)
    → (c == 10) ≡ b
    → All IsLine ls
    → All IsLine (if b then [] ∷ ls else cons_first c ls)
unfolding IsLine cons_first
split_lines-if true c ls e h = (tt, h)
split_lines-if false c [] e h = ((e, tt), tt)
split_lines-if false c (l ∷ ls) e h = ((e, h.0), h.1)

pub split_lines-IsLine : (s : Bytes) → All IsLine (split_lines s)
unfolding split_lines
split_lines-IsLine [] = tt
split_lines-IsLine (c ∷ cs) =
    split_lines-if (c == 10) c (split_lines cs) refl (split_lines-IsLine cs)

chop-IsLine : (s : Bytes) → IsLine s → IsLine (chop s)
unfolding chop IsLine
chop-IsLine [] h = tt
chop-IsLine (c ∷ []) h = elim (Bool-cases (c == 13)) [ inl e ↦ rw e tt | inr e ↦ rw e h ]
chop-IsLine (c ∷ d ∷ cs) h = (h.0, chop-IsLine (d ∷ cs) h.1)

find_char-IsName : (s : Bytes) (i : ℕ) → find_char b':' s ≡ some i → IsName (take i s)
unfolding find_char IsName
find_char-IsName s zero h = tt
find_char-IsName [] (suc i) h = tt
find_char-IsName (c ∷ cs) (suc i) h = elim (Option-cases (find_char b':' cs)) [
  | inl e ↦ ground arith
  | inr (j, e) ↦ (ground arith, find_char-IsName cs i (ground arith))
]

option_headers :
    (o : Option ℕ) (text_ : Bytes) (rest : List Header)
    → find_char b':' text_ ≡ o
    → IsLine text_
    → All IsHeader rest
    → All IsHeader
        (elim o [ none ↦ rest | some c ↦ (take c text_, trim (drop (c + 1) text_)) ∷ rest ])
unfolding IsHeader IsLine
option_headers none text_ rest e h k = k
option_headers (some c) text_ rest e h k = (
  (
    find_char-IsName text_ c e,
    All-take _ c text_ h,
    All-trim _ (drop (c + 1) text_) (All-drop _ (c + 1) text_ h),
    trim-trim (drop (c + 1) text_),
  ),
  k,
)

parse_headers-IsHeader :
    (lines : List Bytes) → All IsLine lines → All IsHeader (parse_headers lines)
unfolding parse_headers
parse_headers-IsHeader [] h = tt
parse_headers-IsHeader (line ∷ lines) h =
    option_headers (find_char b':' (chop line)) (chop line) (parse_headers lines) refl
      (chop-IsLine line h.0) (parse_headers-IsHeader lines h.1)

IsWord-if :
    (b : Bool) (c : ℕ) (cs : Bytes) (r : Bytes × Bytes)
    → is_space c ≡ b
    → IsWord r.0
    → IsWord (if b then ([], c ∷ cs) else cons_line c r).0
unfolding IsWord cons_line
IsWord-if true c cs r e h = tt
IsWord-if false c cs r e h = (e, h)

get_word-IsWord : (s : Bytes) → IsWord (get_word s).0
unfolding get_word IsWord
get_word-IsWord [] = tt
get_word-IsWord (c ∷ cs) = IsWord-if (is_space c) c cs (get_word cs) refl (get_word-IsWord cs)

next_word-IsWord : (s : Bytes) → IsWord (next_word s).0
unfolding next_word
next_word-IsWord s = get_word-IsWord (drop_blanks s)

IsHead-if :
    (a b : Bool) (q r : RequestHead)
    → (a ≡ false → b ≡ false → IsHead q)
    → (if a || b then none else some q) ≡ some r
    → IsHead r
IsHead-if true b q r h e = absurd (ground arith)
IsHead-if false true q r h e = absurd (ground arith)
IsHead-if false false q r h e = subst IsHead (ground arith) (h refl refl)

pub parse_lines-IsHead :
    (lines : List Bytes) (r : RequestHead)
    → All IsLine lines
    → parse_lines lines ≡ some r
    → IsHead r
unfolding parse_lines IsHead
parse_lines-IsHead [] r h e = absurd (ground arith)
parse_lines-IsHead (first ∷ lines) r h e =
    IsHead-if _ _ _ r
      (λ a b. (
        next_word-IsWord (chop first),
        a,
        next_word-IsWord (next_word (chop first)).1,
        b,
        parse_headers-IsHeader lines h.1,
      ))
      e
