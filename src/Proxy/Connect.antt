-- ===== src/Proxy/Connect.antt =====
-- What a CONNECT request does, however its bytes come in.
use github_codespaces_proxy.Base.{
  ℕ, ◌+◌, ◌*◌, ◌^◌, ◌<◌, ◌≤◌, ◌≡◌, refl, ap, ◌∙◌, true, Option, some, List, [], ◌∷◌, ◌++◌, arith,
  Bytes, All, codes, is_empty, is_space, find, length, length-append, take-append_exact, to_string,
}
use github_codespaces_proxy.Util.{iequals}
use github_codespaces_proxy.Stream.Split.{concat, read_until-split}
use github_codespaces_proxy.Client.State.{Net, TunnelOptions, Tunnel}
use github_codespaces_proxy.Client.Sessions.{open_session}
use github_codespaces_proxy.Proxy.Head.{
  cons_first, split_lines, chop, next_word, drop_blanks, RequestHead, parse_lines,
  parse_request_head,
}
use github_codespaces_proxy.Proxy.Lines.{
  IsLine, IsWord, IsWord-IsLine, split_lines-append, chop-append, next_word-append,
}
use github_codespaces_proxy.Proxy.Target.{parse_host_header}
use github_codespaces_proxy.Proxy.Target.Hosts.{
  IsTargetChar, host_port-IsWord, parse_host_header-host_port,
}
use github_codespaces_proxy.Proxy.Request.{
  tunnelled, with_session, handle_connect, handle_head, head_end, handle_conn,
}

-- A line that begins with a blank keeps it.
data IsBlankLine (rest : Bytes) : Type 0 where
  blank_line :
      (line end_ : Bytes) (lines : List Bytes)
      → split_lines (32 ∷ rest) ≡ (32 ∷ line) ∷ lines
      → chop (32 ∷ line) ≡ 32 ∷ end_
      → IsBlankLine rest

chop-blank : (line : Bytes) → (end_ : Bytes) × (chop (32 ∷ line) ≡ 32 ∷ end_)
unfolding chop
chop-blank [] = ([], refl)
chop-blank (c ∷ line) = (chop (c ∷ line), refl)

first-blank :
    (ls : List Bytes)
    → (line : Bytes) × (lines : List Bytes) × (cons_first 32 ls ≡ (32 ∷ line) ∷ lines)
unfolding cons_first
first-blank [] = ([], [], refl)
first-blank (l ∷ ls) = (l, ls, refl)

lines-blank :
    (rest : Bytes)
    → (line : Bytes) × (lines : List Bytes) × (split_lines (32 ∷ rest) ≡ (32 ∷ line) ∷ lines)
unfolding split_lines
lines-blank rest = first-blank (split_lines rest)

rest-IsBlankLine : (rest : Bytes) → IsBlankLine rest
rest-IsBlankLine rest =
    let a = lines-blank rest in let b = chop-blank a.0 in blank_line a.0 b.0 a.1 a.2 b.1

-- The request line of a method and a target, with anything behind it.
abbrev pub request_text : Bytes → Bytes → Bytes → Bytes
request_text method target rest = method ++ (32 ∷ (target ++ 32 ∷ rest))

-- The method and the target of a request line, without what follows.
data IsParsed (method target : Bytes) (o : Option RequestHead) : Type 0 where
  parsed :
      (r : RequestHead)
      → o ≡ some r
      → r.method ≡ method
      → r.target ≡ target
      → IsParsed method target o

space-IsLine : (t : Bytes) → IsWord t → IsLine (32 ∷ t)
unfolding IsLine
space-IsLine t h = (refl, IsWord-IsLine t h)

words :
    (d e : ℕ) (m t x : Bytes)
    → IsWord (d ∷ m)
    → IsWord (e ∷ t)
    → (next_word (request_text (d ∷ m) (e ∷ t) x) ≡ (d ∷ m, 32 ∷ (e ∷ t ++ 32 ∷ x)))
      × (next_word (32 ∷ (e ∷ t ++ 32 ∷ x)) ≡ (e ∷ t, 32 ∷ x))
unfolding next_word drop_blanks is_space
words d e m t x h k =
    (next_word-append d m 32 (e ∷ t ++ 32 ∷ x) h refl, next_word-append e t 32 x k refl)

chop-request :
    (m t line end_ : Bytes)
    → chop (32 ∷ line) ≡ 32 ∷ end_
    → chop (request_text m t line) ≡ request_text m t end_
unfolding chop
chop-request m t line end_ h =
    chop-append m 32 (t ++ 32 ∷ line)
    ∙ ap (λ z. m ++ z) (chop-append (32 ∷ t) 32 line ∙ ap (λ z. 32 ∷ (t ++ z)) h)

parse_lines-IsParsed :
    (d e : ℕ) (m t line end_ : Bytes) (lines : List Bytes)
    → IsWord (d ∷ m)
    → IsWord (e ∷ t)
    → chop (32 ∷ line) ≡ 32 ∷ end_
    → IsParsed (d ∷ m) (e ∷ t) (parse_lines (request_text (d ∷ m) (e ∷ t) line ∷ lines))
unfolding parse_lines is_empty
parse_lines-IsParsed d e m t line end_ lines h k c =
    let w = words d e m t end_ h k in
    rw (parse_lines, chop-request (d ∷ m) (e ∷ t) line end_ c, w.0, w.1) (parsed _ refl refl refl)

lines-request :
    (m t rest line : Bytes) (lines : List Bytes)
    → IsWord m
    → IsWord t
    → split_lines (32 ∷ rest) ≡ (32 ∷ line) ∷ lines
    → split_lines (request_text m t rest) ≡ request_text m t line ∷ lines
lines-request m t rest line lines h k e =
    split_lines-append m (32 ∷ (t ++ 32 ∷ rest)) (32 ∷ (t ++ 32 ∷ line)) lines (IsWord-IsLine m h)
      (split_lines-append (32 ∷ t) (32 ∷ rest) (32 ∷ line) lines (space-IsLine t k) e)

request-IsParsed :
    (d : ℕ) (m t rest : Bytes)
    → 0 < length t
    → IsWord (d ∷ m)
    → IsWord t
    → IsParsed (d ∷ m) t (parse_request_head (request_text (d ∷ m) t rest))
unfolding parse_request_head
request-IsParsed d m [] rest l h k = absurd (omega arith)
request-IsParsed d m (e ∷ t) rest l h k = elim (rest-IsBlankLine rest) [
  | blank_line line end_ lines a b ↦
      rw (lines-request (d ∷ m) (e ∷ t) rest line lines h k a)
        (parse_lines-IsParsed d e m t line end_ lines h k b)
]

handle_connect-parsed :
    (net : Net) (opts : TunnelOptions) (host : Bytes) (port : ℕ) (r : RequestHead) (t : Tunnel)
    → parse_host_header 443 r.target ≡ some (host, port)
    → handle_connect net opts r t ≡ with_session tunnelled (open_session net opts host port t)
unfolding handle_connect
handle_connect-parsed net opts host port r t h = rw (handle_connect, h) refl

handle_head-parsed :
    (net : Net) (opts : TunnelOptions) (head : Bytes) (r : RequestHead) (t : Tunnel)
    → parse_request_head head ≡ some r
    → iequals r.method (codes "CONNECT") ≡ true
    → handle_head net opts head t ≡ handle_connect net opts r t
unfolding handle_head
handle_head-parsed net opts head r t h e = rw (handle_head, h, e) refl

pick_connect :
    (net : Net) (opts : TunnelOptions) (host : Bytes) (port : ℕ) (head target : Bytes) (t : Tunnel)
    → IsParsed (codes "CONNECT") target (parse_request_head head)
    → parse_host_header 443 target ≡ some (host, port)
    → handle_head net opts head t ≡ with_session tunnelled (open_session net opts host port t)
pick_connect net opts host port head target t (parsed r e m u) h =
    handle_head-parsed net opts head r t e
      (ap (λ z. iequals z (codes "CONNECT")) m ∙ (unfold iequals in refl))
    ∙ handle_connect-parsed net opts host port r t (ap (parse_host_header 443) u ∙ h)

connect-IsWord : IsWord (codes "CONNECT")
unfolding IsWord is_space
connect-IsWord = (refl, (refl, (refl, (refl, (refl, (refl, (refl, tt)))))))

pub handle_head-connect :
    (net : Net) (opts : TunnelOptions) (host : Bytes) (port : ℕ) (rest : Bytes) (t : Tunnel)
    → 0 < length host
    → All IsTargetChar host
    → port < 2 ^ 16
    → handle_head net opts (request_text (codes "CONNECT") (host ++ b':' ∷ to_string port) rest) t
      ≡ with_session tunnelled (open_session net opts host port t)
handle_head-connect net opts host port rest t l h p =
    let target = host ++ b':' ∷ to_string port in
    let long = length-append host (b':' ∷ to_string port) in
    pick_connect net opts host port (request_text (codes "CONNECT") target rest) target t
      (request-IsParsed _ _ target rest (omega arith) connect-IsWord (host_port-IsWord host port h))
      (parse_host_header-host_port 443 host port l h p).0

-- However the reads cut the head, it is handled as a whole.
pub handle_conn-split :
    (net : Net) (opts : TunnelOptions) (head : Bytes) (reads : List Bytes) (t : Tunnel)
    → find head_end (head ++ head_end) ≡ some (length head)
    → length head + 4 ≤ 64 * 1024
    → All (λ c. 0 < length c) reads
    → concat reads ≡ head ++ head_end
    → handle_conn net opts reads t ≡ handle_head net opts head t
unfolding handle_conn
handle_conn-split net opts head reads t f m k e =
    let long = length-append head head_end in
    rw
      (
        handle_conn,
        read_until-split head_end (head ++ head_end) (64 * 1024) (length head) reads (omega arith) f
            (omega arith) (omega arith) k e,
        f,
        take-append_exact head head_end (length head) refl,
      )
      refl

-- A request line with the method CONNECT and a target of a nonempty host without blanks, colons
-- and opening brackets, a colon and a port below 65536, with anything behind it up to the first
-- empty line, at most 64 KiB in all, opens a session for exactly that host and port and makes a
-- tunnel of it, or gives 502 if there is no session, however the bytes are cut into nonempty
-- reads.
pub handle_conn-connect :
    (net : Net) (opts : TunnelOptions) (host : Bytes) (port : ℕ) (rest : Bytes) (reads : List Bytes)
    (t : Tunnel)
    → 0 < length host
    → All IsTargetChar host
    → port < 2 ^ 16
    → let head = request_text (codes "CONNECT") (host ++ b':' ∷ to_string port) rest in
      find head_end (head ++ head_end) ≡ some (length head)
      → length head + 4 ≤ 64 * 1024
      → All (λ c. 0 < length c) reads
      → concat reads ≡ head ++ head_end
      → handle_conn net opts reads t ≡ with_session tunnelled (open_session net opts host port t)
handle_conn-connect net opts host port rest reads t l h p f m k e =
    handle_conn-split net opts (request_text (codes "CONNECT") (host ++ b':' ∷ to_string port) rest)
      reads t f m k e
    ∙ handle_head-connect net opts host port rest t l h p
