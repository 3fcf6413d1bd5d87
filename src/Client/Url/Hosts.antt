-- ===== src/Client/Url/Hosts.antt =====
-- Addresses of a server with a scheme and a bare host.
use github_codespaces_proxy.Base.{
  ℕ, ◌<◌, ◌≡◌, refl, ap, ◌∙◌, Bool, true, false, none, some, [], ◌∷◌, ◌++◌, arith, ◌==◌, Bytes, All,
  codes, is_empty, find_char, starts_with, to_string, length,
}
use github_codespaces_proxy.Client.Url.{
  ParsedUrl, fresh_url, split_scheme, split_path, split_authority, plain, parse_parts, parse_ws_url,
}

-- Neither the end of the authority nor the sign of a port or of an IPv6 literal.
unfoldable pub IsHostChar : ℕ → Type 0
IsHostChar c = ((c == b'/') ≡ false) × ((c == b':') ≡ false) × ((c == b'[') ≡ false)

no_slash : (s : Bytes) → All IsHostChar s → find_char b'/' s ≡ none
unfolding IsHostChar find_char
no_slash [] h = refl
no_slash (c ∷ cs) h = rw (find_char, no_slash cs h.1, (h.0).0) refl

no_colon : (s : Bytes) → All IsHostChar s → find_char b':' s ≡ none
unfolding IsHostChar find_char
no_colon [] h = refl
no_colon (c ∷ cs) h = rw (find_char, no_colon cs h.1, (h.0).1) refl

abbrev pub bare : Bool → Bytes → ParsedUrl
bare tls host = record {
  tls = tls;
  host = host;
  port = 443;
  path = codes "/";
  host_header = host ++ codes ":443";
}

split_authority-bare :
    (host : Bytes) → All IsHostChar host → split_authority 443 host ≡ some (host, 443)
unfolding split_authority plain IsHostChar
split_authority-bare [] h = refl
split_authority-bare (c ∷ cs) h = rw (split_authority, (h.0).2, plain, no_colon (c ∷ cs) h) refl

split_path-bare : (host : Bytes) → All IsHostChar host → split_path host ≡ (host, codes "/")
unfolding split_path
split_path-bare host h = rw (split_path, no_slash host h) refl

parse_parts-bare :
    (tls : Bool) (host : Bytes)
    → 0 < length host
    → All IsHostChar host
    → parse_parts tls (host, codes "/") ≡ some (bare tls host)
unfolding parse_parts fresh_url is_empty to_string
parse_parts-bare tls [] l h = absurd (omega arith)
parse_parts-bare tls (c ∷ cs) l h = rw (parse_parts, split_authority-bare (c ∷ cs) h) refl

-- A nonempty host behind wss:// or ws://, with no slash, colon or opening bracket in it, is parsed
-- as that host with port 443 and the path "/"; the scheme decides about TLS alone.
pub parse_ws_url-bare :
    (host : Bytes)
    → 0 < length host
    → All IsHostChar host
    → (parse_ws_url (codes "wss://" ++ host) ≡ some (bare true host))
      × (parse_ws_url (codes "ws://" ++ host) ≡ some (bare false host))
unfolding parse_ws_url split_scheme starts_with
parse_ws_url-bare host l h = (
  ap (parse_parts true) (split_path-bare host h) ∙ parse_parts-bare true host l h,
  ap (parse_parts false) (split_path-bare host h) ∙ parse_parts-bare false host l h,
)
