-- ===== src/Ssrf/Ipv6.antt =====
-- `ipv6ToBytes` of src/common/ssrf.cpp, step by step as the code goes.
use github_codespaces_proxy.Base.{
  ℕ, ◌+◌, ◌*◌, ◌-◌, ◌/◌, ◌%◌, Option, none, some, ◌||◌, List, [], ◌∷◌, ◌++◌, ltb, ◌==◌,
  if◌then◌else◌, Bytes, length, is_empty, codes, take, drop, get_or, replicate, find, find_from,
  find_char, rfind_char, hex_string, hex_value,
}
use github_codespaces_proxy.Ssrf.Ipv4.{◌>>=◌, parse_ipv4}

-- Without the zone id, as in fe80::1%eth0.
unfoldable pub strip_zone : Bytes → Bytes
unfolding find_char
strip_zone ip = elim (find_char b'%' ip) [ none ↦ ip | some zone ↦ take zone ip ]

-- The quad's two groups in hexadecimal.
unfoldable pub quad_groups : Bytes → Bytes
unfolding hex_string
quad_groups v4 =
    hex_string (get_or v4 0 0 * 256 + get_or v4 1 0)
    ++ b':' ∷ hex_string (get_or v4 2 0 * 256 + get_or v4 3 0)

-- An IPv4 tail is rewritten as two groups; `none` if it is no quad.
unfoldable pub expand_ipv4_tail : Bytes → Option Bytes
unfolding rfind_char find_from parse_ipv4 quad_groups
expand_ipv4_tail str = elim (rfind_char b':' str) [
  | none ↦ some str
  | some last_colon ↦ elim (find_from (codes ".") str last_colon) [
    | none ↦ some str
    | some _ ↦ do
      v4 ← parse_ipv4 (drop (last_colon + 1) str)
      some (take (last_colon + 1) str ++ quad_groups v4)
  ]
]

-- The groups between the colons; no group for the empty text.
unfoldable pub split_colons : Bytes → Bytes → List Bytes
split_colons group [] = group ∷ []
split_colons group (c ∷ cs) =
    let next = group ∷ split_colons [] cs in
    let same = split_colons (group ++ c ∷ []) cs in if c == b':' then next else same

unfoldable pub split_groups : Bytes → List Bytes
unfolding split_colons is_empty
split_groups s = if is_empty s then [] else split_colons [] s

-- Without `::` there must be eight groups.
unfoldable pub exact_groups : List Bytes → Option (List Bytes)
exact_groups head =
    if ltb 8 (length head) then none else if length head == 8 then some head else none

-- Those that `::` stands for are filled in with "0".
unfoldable pub filled_groups : List Bytes → List Bytes → Option (List Bytes)
filled_groups head tail =
    let total = length head + length tail in
    if ltb 8 total then none else some (head ++ (replicate (8 - total) (codes "0") ++ tail))

-- The eight groups; `::` may stand once.
unfoldable pub all_groups : Bytes → Option (List Bytes)
unfolding find find_from split_groups exact_groups filled_groups
all_groups str = elim (find (codes "::") str) [
  | none ↦ exact_groups (split_groups str)
  | some pos ↦ elim (find_from (codes "::") str (pos + 1)) [
    | some _ ↦ none
    | none ↦ filled_groups (split_groups (take pos str)) (split_groups (drop (pos + 2) str))
  ]
]

unfoldable pub hex_number : ℕ → Bytes → Option ℕ
unfolding hex_value
hex_number n [] = some n
hex_number n (c ∷ cs) = do digit ← hex_value c; hex_number (n * 16 + digit) cs

-- One to four hexadecimal digits.
unfoldable pub group_value : Bytes → Option ℕ
unfolding hex_number is_empty
group_value g = if is_empty g || ltb 4 (length g) then none else hex_number 0 g

unfoldable pub group_bytes : List Bytes → Option Bytes
unfolding group_value
group_bytes [] = some []
group_bytes (g ∷ gs) = do
  n ← group_value g
  rest ← group_bytes gs
  some ((n / 256 % 256) ∷ (n % 256) ∷ rest)

unfoldable pub ipv6_to_bytes : Bytes → Option Bytes
unfolding strip_zone expand_ipv4_tail all_groups group_bytes is_empty
ipv6_to_bytes ip =
    let str = strip_zone ip in
    if is_empty str || ltb 45 (length str)
    then none
    else (do expanded ← expand_ipv4_tail str; groups ← all_groups expanded; group_bytes groups)
