-- ===== src/Proxy/Target/Hosts.antt =====
-- A host and a port, read back.
use github_codespaces_proxy.Base.{
  ℕ, ◌+◌, ◌^◌, ◌<◌, ◌≡◌, refl, ap, ◌∙◌, subst, sym, append-nil, true, false, none, some, [], ◌∷◌,
  ◌++◌, arith, ◌==◌, Bytes, All, All-append, All-map, is_empty, is_digit, is_space, rfind_char,
  length, to_string, to_string_digits, take-append_exact,
}
use github_codespaces_proxy.Client.Url.{digits_value}
use github_codespaces_proxy.Client.Url.Ports.{
  digits_value-to_string, IsDigits, digits, to_string-IsDigits, port_of-digits,
}
use github_codespaces_proxy.Util.{trim}
use github_codespaces_proxy.Util.Trim.{trim-word}
use github_codespaces_proxy.Proxy.Lines.{IsName, IsWord}
use github_codespaces_proxy.Proxy.Rebuilt.{find_char-name, drop_behind}
use github_codespaces_proxy.Proxy.Target.{
  with_host, digit_first, plain_host, parse_value, parse_host_header,
}

-- Neither a blank, a colon nor an opening bracket.
unfoldable pub IsTargetChar : ℕ → Type 0
IsTargetChar c = (is_space c ≡ false) × ((c == b':') ≡ false) × ((c == b'[') ≡ false)

rfind_char-none : (s : Bytes) → All (λ c. (c == b':') ≡ false) s → rfind_char b':' s ≡ none
unfolding rfind_char
rfind_char-none [] h = refl
rfind_char-none (c ∷ s) h = rw (rfind_char, rfind_char-none s h.1, h.0) refl

rfind_char-last :
    (x s : Bytes)
    → All (λ c. (c == b':') ≡ false) s
    → rfind_char b':' (x ++ b':' ∷ s) ≡ some (length x)
unfolding rfind_char
rfind_char-last [] s h = rw (rfind_char, rfind_char-none s h) refl
rfind_char-last (c ∷ x) s h = rw (rfind_char, rfind_char-last x s h) refl

plain_host-port :
    (default_port : ℕ) (host : Bytes) (d : ℕ) (ds : Bytes) (port : ℕ)
    → All IsTargetChar host
    → All (λ c. is_digit c ≡ true) (d ∷ ds)
    → digits_value 0 (d ∷ ds) ≡ port
    → port < 2 ^ 16
    → plain_host default_port (host ++ b':' ∷ d ∷ ds) ≡ with_host host (some port)
unfolding plain_host digit_first IsTargetChar IsName
plain_host-port default_port host d ds port h k e l =
    rw
      (
        plain_host,
        rfind_char-last host (d ∷ ds) (All-map (λ c q. unfold is_digit in ground arith) (d ∷ ds) k),
        find_char-name host (d ∷ ds) (All-map (λ c q. q.1) host h),
        drop_behind (length host + 1) host b':' (d ∷ ds) (omega arith),
        take-append_exact host (b':' ∷ d ∷ ds) (length host) refl,
        port_of-digits d ds port k.0 e l,
      )
      (ground (arith, k.0))

host-first :
    (default_port : ℕ) (host s : Bytes)
    → 0 < length host
    → All IsTargetChar host
    → parse_value default_port (host ++ s) ≡ plain_host default_port (host ++ s)
unfolding parse_value IsTargetChar
host-first default_port [] s l h = absurd (omega arith)
host-first default_port (c ∷ host) s l h = rw (parse_value, (h.0).2) refl

with_host-some :
    (host : Bytes) (port : ℕ) → 0 < length host → with_host host (some port) ≡ some (host, port)
unfolding with_host is_empty
with_host-some [] port l = absurd (omega arith)
with_host-some (c ∷ host) port l = refl

host-word : (host : Bytes) → All IsTargetChar host → All (λ c. is_space c ≡ false) host
unfolding IsTargetChar
host-word host h = All-map (λ c q. q.0) host h

plain_host-no_port :
    (default_port : ℕ) (host : Bytes)
    → All IsTargetChar host
    → plain_host default_port host ≡ with_host host (some default_port)
unfolding plain_host IsTargetChar
plain_host-no_port default_port host h =
    rw (plain_host, rfind_char-none host (All-map (λ c q. q.1) host h)) refl

digit-no_space : (c : ℕ) → is_digit c ≡ true → is_space c ≡ false
unfolding is_digit is_space
digit-no_space c h = ground arith

pub host_port-IsWord :
    (host : Bytes) (port : ℕ) → All IsTargetChar host → IsWord (host ++ b':' ∷ to_string port)
unfolding IsTargetChar is_space IsWord
host_port-IsWord host port h =
    All-append (λ c. is_space c ≡ false) host (b':' ∷ to_string port) (All-map (λ c q. q.0) host h)
      (refl, All-map digit-no_space (to_string port) (to_string_digits port))

host_port-trim :
    (host : Bytes) (port : ℕ)
    → All IsTargetChar host
    → trim (host ++ b':' ∷ to_string port) ≡ host ++ b':' ∷ to_string port
unfolding IsWord
host_port-trim host port h = trim-word _ (host_port-IsWord host port h)

parse-trimmed :
    (default_port : ℕ) (s : Bytes)
    → trim s ≡ s
    → parse_host_header default_port s ≡ parse_value default_port s
unfolding parse_host_header
parse-trimmed default_port s h = ap (parse_value default_port) h

plain_host-to_string :
    (default_port : ℕ) (host s : Bytes) (port : ℕ)
    → All IsTargetChar host
    → IsDigits s
    → All (λ c. is_digit c ≡ true) s
    → digits_value 0 s ≡ port
    → port < 2 ^ 16
    → plain_host default_port (host ++ b':' ∷ s) ≡ with_host host (some port)
plain_host-to_string default_port host s port h (digits d ds e x) k v l = rw e (
    plain_host-port default_port host d ds port h (subst (λ s. All (λ c. is_digit c ≡ true) s) e k)
      (ap (digits_value 0) (sym e) ∙ v) l)

pub parse_host_header-host_port :
    (default_port : ℕ) (host : Bytes) (port : ℕ)
    → 0 < length host
    → All IsTargetChar host
    → port < 2 ^ 16
    → (parse_host_header default_port (host ++ b':' ∷ to_string port) ≡ some (host, port))
      × (parse_host_header default_port host ≡ some (host, default_port))
parse_host_header-host_port default_port host port l h p = (
  parse-trimmed default_port (host ++ b':' ∷ to_string port) (host_port-trim host port h)
      ∙ host-first default_port host (b':' ∷ to_string port) l h
      ∙ plain_host-to_string default_port host (to_string port) port h (to_string-IsDigits port)
          (to_string_digits port) (digits_value-to_string port) p
      ∙ with_host-some host port l,
  parse-trimmed default_port host (trim-word host (host-word host h))
      ∙ ap (parse_value default_port) (sym (append-nil host))
      ∙ host-first default_port host [] l h
      ∙ ap (plain_host default_port) (append-nil host)
      ∙ plain_host-no_port default_port host h
      ∙ with_host-some host default_port l,
)
