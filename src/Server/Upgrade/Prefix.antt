-- ===== src/Server/Upgrade/Prefix.antt =====
-- The body prefix of `readHttpHead`.
use github_codespaces_proxy.Base.{
  ◌+◌, ◌*◌, ◌≡◌, refl, ap, ◌∙◌, Bool, true, false, Option, none, some, List, [], ◌∷◌, arith, Bytes,
  if◌then◌else◌,
}
use github_codespaces_proxy.Stream.{read_until}
use github_codespaces_proxy.Stream.Split.{IsCut, is_cut, read_until-IsCut}
use github_codespaces_proxy.Proxy.Head.{split_lines}
use github_codespaces_proxy.Server.Upgrade.{
  HttpHead, parse_http_lines, split_head, read_http_head, head_end,
}
use github_codespaces_proxy.Server.Upgrade.Both.{drop_all}

split_head-cut : (buf : Bytes) → IsCut head_end buf → (split_head buf).1 ≡ []
unfolding split_head
split_head-cut buf (is_cut n f l) = rw (split_head, f) (drop_all (n + 4) buf l)

prefix-if :
    (b : Bool) (q r : HttpHead)
    → (if b then none else some q) ≡ some r
    → r.body_prefix ≡ q.body_prefix
prefix-if true q r h = absurd (ground arith)
prefix-if false q r h = ground arith

parse-prefix :
    (head body_prefix : Bytes) (lines : List Bytes) (r : HttpHead)
    → parse_http_lines head body_prefix lines ≡ some r
    → r.body_prefix ≡ body_prefix
unfolding parse_http_lines
parse-prefix head body_prefix [] r h = absurd (ground arith)
parse-prefix head body_prefix (first ∷ lines) r h = prefix-if _ _ r h

parsed-head :
    (q : Option HttpHead) (rest rest_ : List Bytes) (r : HttpHead)
    → let out : Option (HttpHead × List Bytes) = elim q [
      | none ↦ none
      | some head ↦ some (head, rest)
    ] in
      out ≡ some (r, rest_) → q ≡ some r
parsed-head none rest rest_ r h = absurd (ground arith)
parsed-head (some q) rest rest_ r h = ground arith

read-prefix :
    (o : Option (Bytes × List Bytes)) (rest : List Bytes) (r : HttpHead)
    → ((buf : Bytes) (left : List Bytes) → o ≡ some (buf, left) → IsCut head_end buf)
    → let out : Option (HttpHead × List Bytes) = elim o [
      | none ↦ none
      | some (buf, left) ↦
          elim (parse_http_lines
            (split_head buf).0
            (split_head buf).1
            (split_lines (split_head buf).0)) [ none ↦ none | some head ↦ some (head, left) ]
    ] in
      out ≡ some (r, rest) → r.body_prefix ≡ []
read-prefix none rest r k h = absurd (ground arith)
read-prefix (some (buf, left)) rest r k h =
    parse-prefix (split_head buf).0 (split_head buf).1 (split_lines (split_head buf).0) r
      (parsed-head _ left rest r h)
    ∙ split_head-cut buf (k buf left (ap some refl))

pub read_http_head-body_prefix :
    (reads rest : List Bytes) (r : HttpHead)
    → read_http_head reads ≡ some (r, rest)
    → r.body_prefix ≡ []
unfolding read_http_head
read_http_head-body_prefix reads rest r h =
    read-prefix (read_until head_end (64 * 1024) [] reads) rest r
      (λ buf left e. read_until-IsCut head_end (64 * 1024) [] buf reads left e) h
