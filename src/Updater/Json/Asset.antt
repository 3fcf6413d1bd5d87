-- ===== src/Updater/Json/Asset.antt =====
-- `selectAsset` on Linux, and what `maybeSelfUpdate` decides.
pub mod Chosen
use github_codespaces_proxy.Base.{
  ℕ, zero, suc, ◌+◌, ◌*◌, ◌-◌, ◌/◌, ◌%◌, Bool, true, false, Option, none, some, ◌&&◌, ◌||◌, not,
  List, [], ◌∷◌, ◌++◌, ltb, leb, ◌==◌, if◌then◌else◌, Bytes, codes, is_empty, is_digit, is_space,
  starts_with, hex_value, find, drop, length, text_eq,
}
use github_codespaces_proxy.Client.Url.{skip_blanks}
use github_codespaces_proxy.Updater.Json.{
  JVal, nul, str, num, boolean, arr, obj, JVals, no_vals, more_vals, Members, no_members, member,
  put_member, find_val, text_of,
}
use github_codespaces_proxy.Updater.Json.Parser.{json_parse}
use github_codespaces_proxy.Updater.Version.{Compared, older, same, newer, compare_version}
use github_codespaces_proxy.Updater.Fetch.{
  Target, HttpResp, Fetched, fetched, failed, request_failed, out_of_fuel, https_get,
}

-- The text ends with `ext`.
unfoldable pub ends_with : Bytes → Bytes → Bool
ends_with ext n = leb (length ext) (length n) && text_eq (drop (length n - length ext) n) ext

unfoldable pub is_found : Option ℕ → Bool
is_found none = false
is_found (some at) = true

unfoldable pub fits_platform : Bytes → Bool
unfolding is_found ends_with
fits_platform n = is_found (find (codes "amd64") n) && ends_with (codes ".deb") n

-- The address of an asset for this platform, from its name and its address.
unfoldable pub url_for : Option JVal → Option JVal → Option Bytes
url_for none url = none
url_for (some name) none = none
url_for (some name) (some url) = if fits_platform (text_of name) then some (text_of url) else none

unfoldable pub asset_url : JVal → Option Bytes
unfolding find_val url_for
asset_url a = url_for (find_val a (codes "name")) (find_val a (codes "browser_download_url"))

unfoldable pub option_or : Option Bytes → Bytes → Bytes
option_or none other = other
option_or (some u) other = u

-- The first of the assets that fits; an empty text for none.
unfoldable pub first_asset : JVals → Bytes
unfolding asset_url option_or
first_asset no_vals = []
first_asset (more_vals a rest) = option_or (asset_url a) (first_asset rest)

unfoldable pub select_from : JVal → Bytes
select_from nul = []
select_from (str s) = []
select_from (num s) = []
select_from (boolean b) = []
select_from (arr vals) = first_asset vals
select_from (obj o) = []

unfoldable pub select_assets : Option JVal → Bytes
unfolding select_from
select_assets none = []
select_assets (some assets) = select_from assets

unfoldable pub select_asset : JVal → Bytes
unfolding select_assets find_val
select_asset release = select_assets (find_val release (codes "assets"))

-- Why there is no update, or the address that it comes from; `thrown` is an exception that leaves
-- the function.
pub data Decision : Type 0 where
  check_failed parse_failed no_tag up_to_date thrown no_asset : Decision
  update_from : Bytes → Decision

unfoldable pub body_of : Fetched → Bytes
body_of (fetched body) = body
body_of (failed message) = []
body_of request_failed = []
body_of out_of_fuel = []

unfoldable pub string_of : JVal → Option Bytes
string_of nul = none
string_of (str s) = some s
string_of (num s) = none
string_of (boolean b) = none
string_of (arr vals) = none
string_of (obj o) = none

unfoldable pub from_asset : Bytes → Decision
from_asset url = if is_empty url then no_asset else update_from url

unfoldable pub by_version : Option Compared → Bytes → Decision
unfolding from_asset
by_version none url = thrown
by_version (some older) url = from_asset url
by_version (some same) url = up_to_date
by_version (some newer) url = up_to_date

unfoldable pub tag_of : JVal → Option Bytes
unfolding find_val string_of
tag_of root = elim (find_val root (codes "tag_name")) [ none ↦ none | some tag ↦ string_of tag ]

unfoldable pub by_tag : Bytes → Option Bytes → Bytes → Decision
by_tag current none url = no_tag
by_tag current (some latest) url = by_version (compare_version current latest) url

unfoldable pub by_root : Bytes → Option JVal → Decision
by_root current none = parse_failed
by_root current (some root) = by_tag current (tag_of root) (select_asset root)

unfoldable pub maybe_self_update : (Target → HttpResp) → Bytes → Bytes → Decision
maybe_self_update request current repo =
    let json =
      body_of
        (https_get request
          (codes "https://api.github.com/repos/" ++ repo ++ codes "/releases/latest")).0 in
    if is_empty json then check_failed else by_root current (json_parse json)
