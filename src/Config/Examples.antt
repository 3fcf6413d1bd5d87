-- ===== src/Config/Examples.antt =====
-- Configurations of both programs.
use github_codespaces_proxy.Base.{
  ◌≡◌, refl, true, false, some, [], ◌∷◌, ◌++◌, Bytes, All, codes, is_empty, is_space,
}
use github_codespaces_proxy.Config.{
  Values, skip_ws, bare_key, bare_value, skip_char, key_at, value_at, after_key, entry, store,
  parse_entries, parse_config,
}
use github_codespaces_proxy.Config.Rounds.{IsParsed, parse_config-IsParsed}
use github_codespaces_proxy.Config.Written.{written, assigned, IsKey, parse_config-written}
use github_codespaces_proxy.Config.Client.{client_defaults, from_client_values}

abbrev entries_text : Bytes
entries_text = codes " { port: 1, host: x }"

parse_config-IsParsed_example : IsParsed entries_text (parse_config (some entries_text))
parse_config-IsParsed_example = parse_config-IsParsed entries_text

abbrev some_values : Values
some_values = (codes "port", codes "9000") ∷ (codes "tlsKey", codes "C:\\key \"x\"") ∷ []

some_values-IsKey : All IsKey some_values
unfolding IsKey is_empty
some_values-IsKey = (
  (refl, (refl, (refl, (refl, (refl, tt))))),
  ((refl, (refl, (refl, (refl, (refl, (refl, (refl, tt))))))), tt),
)

abbrev blanks : Bytes
blanks = 10 ∷ 32 ∷ []

parse_config-written_example :
    parse_config (some (written false blanks some_values)) ≡ assigned some_values []
unfolding is_space
parse_config-written_example =
    parse_config-written false blanks some_values (refl, (refl, tt)) some_values-IsKey

-- A comment behind a value without quotes is part of the value, so that the check of certificates
-- stays on.
commented_test :
    (from_client_values
      (parse_config (some (codes "{ rejectUnauthorized: false // local test" ++ 10 ∷ codes "}")))
      client_defaults).reject_unauthorized
    ≡ true
unfolding from_client_values parse_config client_defaults skip_ws parse_entries entry after_key
    skip_char value_at key_at bare_key bare_value store
commented_test = refl
