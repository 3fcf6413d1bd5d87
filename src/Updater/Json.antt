-- ===== src/Updater/Json.antt =====
-- `JVal` of src/common/updater.cpp. A number keeps its text; the `double` that strtod makes of it is
-- read by no one.
pub mod Strings
pub mod Parser
pub mod Asset
use github_codespaces_proxy.Base.{
  ℕ, zero, suc, ◌+◌, ◌*◌, ◌-◌, ◌/◌, ◌%◌, Bool, true, false, Option, none, some, ◌&&◌, ◌||◌, not,
  List, [], ◌∷◌, ◌++◌, ltb, leb, ◌==◌, if◌then◌else◌, Bytes, codes, is_digit, is_space, starts_with,
  hex_value, find, drop, length, text_eq,
}
use github_codespaces_proxy.Client.Url.{skip_blanks}

mutual
  pub data JVal : Type 0 where
    nul : JVal
    str num : Bytes → JVal
    boolean : Bool → JVal
    arr : JVals → JVal
    obj : Members → JVal

  pub data JVals : Type 0 where
    no_vals : JVals
    more_vals : JVal → JVals → JVals

  pub data Members : Type 0 where
    no_members : Members
    member : Bytes → JVal → Members → Members

-- `o[key] = val`.
unfoldable pub put_member : Bytes → JVal → Members → Members
unfolding text_eq
put_member key val no_members = member key val no_members
put_member key val (member k v rest) =
    let more = put_member key val rest in
    if text_eq k key then member key val rest else member k v more

unfoldable pub find_member : Bytes → Members → Option JVal
unfolding text_eq
find_member key no_members = none
find_member key (member k v rest) = if text_eq k key then some v else find_member key rest

-- `find` and the field `s`.
unfoldable pub find_val : JVal → Bytes → Option JVal
unfolding find_member
find_val nul key = none
find_val (str s) key = none
find_val (num s) key = none
find_val (boolean b) key = none
find_val (arr vals) key = none
find_val (obj o) key = find_member key o

unfoldable pub text_of : JVal → Bytes
text_of nul = []
text_of (str s) = s
text_of (num s) = s
text_of (boolean b) = []
text_of (arr vals) = []
text_of (obj o) = []
