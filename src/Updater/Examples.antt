-- ===== src/Updater/Examples.antt =====
-- The updater at concrete releases.
use github_codespaces_proxy.Base.{
  ◌≤◌, ◌≡◌, ◌≢◌, refl, true, false, none, some, [], ◌++◌, arith, Bytes, codes, starts_with,
  is_empty,
}
use github_codespaces_proxy.Updater.Version.{
  norm, split_dots, digits_of, part_number, cons_number, part_numbers, version_numbers,
  compare_numbers, compare_version,
}
use github_codespaces_proxy.Updater.Version.Release.{
  tagged, release, rank, compare_ranks, compare_version-release,
}
use github_codespaces_proxy.Updater.Fetch.{
  Target, HttpResp, parse_url, target_of, host_port, out_of_fuel, https_get,
}
use github_codespaces_proxy.Updater.Fetch.Redirects.{https_get-done}
use github_codespaces_proxy.Updater.Install.{
  split_self, tmp_dir, contains_shell_meta, shell_command, install_command,
}
use github_codespaces_proxy.Updater.Install.Quoted.{outside, install_command-outside}
use github_codespaces_proxy.Updater.Json.{put_member, find_val, text_of}
use github_codespaces_proxy.Updater.Json.Strings.{escape_at, string_from, parse_str, number_from}
use github_codespaces_proxy.Updater.Json.Parser.{
  separator, key_colon, unless_closed, as_val, push_val, value_at, parse_val, json_parse,
}
use github_codespaces_proxy.Updater.Json.Parser.Enough.{json_parse_rounds}
use github_codespaces_proxy.Updater.Json.Asset.{
  ends_with, is_found, fits_platform, url_for, asset_url, first_asset, select_asset, update_from,
  body_of, from_asset, by_version, tag_of, by_tag, by_root, maybe_self_update,
}
use github_codespaces_proxy.Updater.Json.Asset.Chosen.{IsUpdate, maybe_self_update-IsUpdate}

compare_version-release_example :
    compare_version (tagged false (release 1 9 0)) (tagged true (release 1 10 0))
    ≡ some (compare_ranks (rank 1 9 0) (rank 1 10 0))
compare_version-release_example =
    compare_version-release false true 1 9 0 1 10 0 (omega arith) (omega arith) (omega arith)
      (omega arith) (omega arith) (omega arith)

-- A server that sends everyone on to the same place.
abbrev circle : Target → HttpResp
circle t = record { status = 302; location = codes "https://a.io/x"; body = [] }

https_get-done_example :
    ((https_get circle (codes "https://a.io/")).0 ≢ out_of_fuel)
    × ((https_get circle (codes "https://a.io/")).1 ≤ 6)
https_get-done_example = https_get-done circle (codes "https://a.io/")

abbrev program : Bytes
program = codes "/opt/hwp/client"

install_command-runs :
    install_command 7 program
    ≡ some (shell_command (codes "/tmp/hwp_update_7") (codes "client") (codes "/opt/hwp"))
unfolding install_command contains_shell_meta tmp_dir split_self
install_command-runs = refl

install_command-outside_example :
    outside false (shell_command (codes "/tmp/hwp_update_7") (codes "client") (codes "/opt/hwp"))
    ≡ outside false (shell_command [] [] [])
install_command-outside_example = install_command-outside 7 program _ install_command-runs

abbrev newest : Bytes
newest =
    codes
      "{\"tag_name\": \"v1.2.0\", \"assets\": [{\"name\": \"hwp-amd64.deb\", \"browser_download_url\": \"https://a.io/d\"}]}"

abbrev serves_newest : Target → HttpResp
serves_newest t = record { status = 200; location = []; body = newest }

newest_found :
    maybe_self_update serves_newest (codes "1.1.9") (codes "o/r")
    ≡ update_from (codes "https://a.io/d")
unfolding maybe_self_update body_of https_get parse_url json_parse parse_val value_at as_val
    unless_closed key_colon parse_str string_from separator put_member by_root by_tag tag_of
    by_version compare_version version_numbers split_dots norm part_numbers compare_numbers
    escape_at find_val select_asset fits_platform ends_with is_found url_for asset_url first_asset
    text_of cons_number part_number digits_of push_val starts_with from_asset number_from is_empty
    target_of host_port
newest_found = refl

maybe_self_update-IsUpdate_example : IsUpdate (codes "1.1.9") (codes "https://a.io/d") (
    json_parse (
      body_of
        (https_get serves_newest
          (codes "https://api.github.com/repos/" ++ codes "o/r" ++ codes "/releases/latest")).0))
maybe_self_update-IsUpdate_example =
    maybe_self_update-IsUpdate serves_newest (codes "1.1.9") (codes "o/r") (codes "https://a.io/d")
      newest_found

json_parse_rounds_example :
    json_parse (codes "{\"a\":[1,\"b\"]}")
    ≡ elim (parse_val (some (codes "none")) 99 (codes "{\"a\":[1,\"b\"]}")) [
      | none ↦ none
      | some (v, rest) ↦ some v
    ]
json_parse_rounds_example =
    json_parse_rounds (some (codes "none")) 99 (codes "{\"a\":[1,\"b\"]}") (omega arith)
