-- ===== src/Updater/Json/Asset/Chosen.antt =====
-- What an update is made from.
use github_codespaces_proxy.Base.{
  ◌≡◌, refl, ap, ◌∙◌, Bool, true, false, Option, none, some, [], ◌∷◌, ◌++◌, arith, if◌then◌else◌,
  Bytes, codes, is_empty,
}
use github_codespaces_proxy.Updater.Json.{
  JVal, nul, str, num, boolean, arr, obj, JVals, no_vals, more_vals, find_val, text_of,
}
use github_codespaces_proxy.Updater.Json.Parser.{json_parse}
use github_codespaces_proxy.Updater.Json.Asset.{
  fits_platform, url_for, option_or, select_assets, by_tag, asset_url, first_asset, select_from,
  select_asset, Decision, check_failed, update_from, from_asset, by_version, tag_of, by_root,
  maybe_self_update, body_of,
}
use github_codespaces_proxy.Updater.Version.{Compared, older, same, newer, compare_version}
use github_codespaces_proxy.Updater.Fetch.{Target, HttpResp, https_get}

-- An asset of the list has the address, and its name fits the platform.
pub data IsAsset (url : Bytes) : JVals → Type 0 where
  here :
      (a name address : JVal) (rest : JVals)
      → find_val a (codes "name") ≡ some name
      → find_val a (codes "browser_download_url") ≡ some address
      → fits_platform (text_of name) ≡ true
      → text_of address ≡ url
      → IsAsset url (more_vals a rest)
  further : (a : JVal) (rest : JVals) → IsAsset url rest → IsAsset url (more_vals a rest)

url_for-parts :
    (n u : Option JVal) (url : Bytes)
    → url_for n u ≡ some url
    → (name : JVal) × (address : JVal) × (n ≡ some name)
      × (u ≡ some address)
      × (fits_platform (text_of name) ≡ true)
      × (text_of address ≡ url)
unfolding url_for
url_for-parts none u url h = absurd (ground (arith, h))
url_for-parts (some name) none url h = absurd (ground (arith, h))
url_for-parts (some name) (some address) url h =
    (name, address, refl, refl, ground arith, ground arith)

option_or-IsAsset :
    (o : Option Bytes) (a : JVal) (rest : JVals) (url : Bytes)
    → asset_url a ≡ o
    → option_or o (first_asset rest) ≡ url
    → (first_asset rest ≡ url → IsAsset url rest)
    → IsAsset url (more_vals a rest)
unfolding option_or asset_url
option_or-IsAsset none a rest url f g k = further a rest (k g)
option_or-IsAsset (some u) a rest url f g k =
    let p =
      url_for-parts (find_val a (codes "name")) (find_val a (codes "browser_download_url")) u f in
    here a p.0 p.1 rest p.2 p.3 p.4 (p.5 ∙ g)

first_asset-IsAsset :
    (vals : JVals) (url : Bytes) → is_empty url ≡ false → first_asset vals ≡ url → IsAsset url vals
unfolding first_asset is_empty
first_asset-IsAsset no_vals url e h = absurd (ground (arith, h, e))
first_asset-IsAsset (more_vals a rest) url e h =
    option_or-IsAsset (asset_url a) a rest url refl h (first_asset-IsAsset rest url e)

-- What an update from an address rests on.
pub data IsUpdate (current url : Bytes) : Option JVal → Type 0 where
  is_update :
      (root : JVal) (latest : Bytes) (vals : JVals)
      → tag_of root ≡ some latest
      → compare_version current latest ≡ some older
      → find_val root (codes "assets") ≡ some (arr vals)
      → IsAsset url vals
      → IsUpdate current url (some root)

from_asset-url :
    (u url : Bytes) → from_asset u ≡ update_from url → (u ≡ url) × (is_empty url ≡ false)
unfolding from_asset is_empty
from_asset-url [] url h = absurd (ground (arith, h))
from_asset-url (c ∷ u) url h = (ground arith, ground arith)

by_version-url :
    (o : Option Compared) (u url : Bytes)
    → by_version o u ≡ update_from url
    → (o ≡ some older) × (from_asset u ≡ update_from url)
unfolding by_version
by_version-url none u url h = absurd (ground (arith, h))
by_version-url (some older) u url h = (refl, h)
by_version-url (some same) u url h = absurd (ground (arith, h))
by_version-url (some newer) u url h = absurd (ground (arith, h))

by_tag-url :
    (current : Bytes) (tag : Option Bytes) (u url : Bytes)
    → by_tag current tag u ≡ update_from url
    → (latest : Bytes) × (tag ≡ some latest)
      × (compare_version current latest ≡ some older)
      × (from_asset u ≡ update_from url)
unfolding by_tag
by_tag-url current none u url h = absurd (ground (arith, h))
by_tag-url current (some latest) u url h =
    let v = by_version-url (compare_version current latest) u url h in (latest, refl, v.0, v.1)

select_from-vals :
    (assets : JVal) (url : Bytes)
    → is_empty url ≡ false
    → select_from assets ≡ url
    → (vals : JVals) × (assets ≡ arr vals) × (first_asset vals ≡ url)
unfolding select_from is_empty
select_from-vals nul url e h = absurd (ground (arith, h, e))
select_from-vals (str s) url e h = absurd (ground (arith, h, e))
select_from-vals (num s) url e h = absurd (ground (arith, h, e))
select_from-vals (boolean b) url e h = absurd (ground (arith, h, e))
select_from-vals (obj o) url e h = absurd (ground (arith, h, e))
select_from-vals (arr vals) url e h = (vals, refl, h)

select_assets-vals :
    (o : Option JVal) (url : Bytes)
    → is_empty url ≡ false
    → select_assets o ≡ url
    → (vals : JVals) × (o ≡ some (arr vals)) × (first_asset vals ≡ url)
unfolding select_assets is_empty
select_assets-vals none url e h = absurd (ground (arith, h, e))
select_assets-vals (some assets) url e h =
    let v = select_from-vals assets url e h in (v.0, ap some v.1, v.2)

by_root-IsUpdate :
    (current url : Bytes) (o : Option JVal)
    → by_root current o ≡ update_from url
    → IsUpdate current url o
unfolding by_root select_asset
by_root-IsUpdate current url none h = absurd (ground (arith, h))
by_root-IsUpdate current url (some root) h =
    let t = by_tag-url current (tag_of root) _ url h in
    let u = from_asset-url _ url t.3 in
    let v = select_assets-vals (find_val root (codes "assets")) url u.1 u.0 in
    is_update root t.0 v.0 t.1 t.2 v.1 (first_asset-IsAsset v.0 url u.1 v.2)

if-update :
    (b : Bool) (d : Decision) (url : Bytes)
    → (if b then check_failed else d) ≡ update_from url
    → d ≡ update_from url
if-update true d url h = absurd (ground (arith, h))
if-update false d url h = h

-- Whatever the network answers, an update is taken from an address only if the answer parsed, its
-- tag is a string that compares as newer than the current version, and the address is that of an
-- asset in its list of assets whose name has amd64 in it and ends with .deb.
pub maybe_self_update-IsUpdate :
    (request : Target → HttpResp) (current repo url : Bytes)
    → maybe_self_update request current repo ≡ update_from url
    → IsUpdate current url (
        json_parse (
          body_of
            (https_get request
              (codes "https://api.github.com/repos/" ++ repo ++ codes "/releases/latest")).0))
unfolding maybe_self_update
maybe_self_update-IsUpdate request current repo url h =
    by_root-IsUpdate current url _ (if-update _ _ url h)
