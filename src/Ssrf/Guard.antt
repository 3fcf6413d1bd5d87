-- ===== src/Ssrf/Guard.antt =====
-- `isIpLiteral`, `isBlockedIp` and `guardTarget` of src/common/ssrf.cpp.
use github_codespaces_proxy.Base.{
  ℕ, zero, suc, Bool, true, false, Option, none, some, ◌&&◌, not, List, [], ◌∷◌, ◌++◌, ◌==◌,
  if◌then◌else◌, Bytes, is_empty, codes, drop, get_or, find_char,
}
use github_codespaces_proxy.Ssrf.Blocks.{ipv4_blocks, ipv6_blocks, find_block}
use github_codespaces_proxy.Ssrf.Ipv4.{parse_ipv4}
use github_codespaces_proxy.Ssrf.Ipv4.Print.{dotted}
use github_codespaces_proxy.Ssrf.Ipv6.{ipv6_to_bytes}

pub record BlockResult : Type 0 where
  pub blocked : Bool
  pub cidr : Bytes

abbrev pub not_blocked : BlockResult
not_blocked = record { blocked = false; cidr = [] }

abbrev pub block_result : Option Bytes → BlockResult
block_result none = not_blocked
block_result (some cidr) = record { blocked = true; cidr = cidr }

-- `ip.find(':') != npos && ipv6ToBytes(ip, v6)`.
unfoldable pub parse_ipv6 : Bytes → Option Bytes
unfolding find_char
parse_ipv6 ip = elim (find_char b':' ip) [ none ↦ none | some _ ↦ ipv6_to_bytes ip ]

-- 4, 6, or 0 for what is no literal.
unfoldable pub is_ip_literal : Bytes → ℕ
unfolding parse_ipv6
is_ip_literal s = elim (parse_ipv4 s) [
  | some _ ↦ 4
  | none ↦ elim (parse_ipv6 s) [ some _ ↦ 6 | none ↦ 0 ]
]

unfoldable pub all_zero : ℕ → Bytes → Bool
all_zero zero v6 = true
all_zero (suc n) v6 = get_or v6 0 0 == 0 && all_zero n (drop 1 v6)

unfoldable pub is_v4_mapped : Bytes → Bool
unfolding all_zero
is_v4_mapped v6 = all_zero 10 v6 && get_or v6 10 0 == 0xff && get_or v6 11 0 == 0xff

unfoldable pub mapped_quad : Bytes → Bytes
unfolding dotted
mapped_quad v6 = dotted (get_or v6 12 0) (get_or v6 13 0) (get_or v6 14 0) (get_or v6 15 0)

-- `isBlockedIp` calls itself on the dotted quad of a mapped address, so one more round is enough;
-- without fuel the answer is the one for text that is no address.
unfoldable pub is_blocked_ip_fuel : ℕ → Bytes → BlockResult
unfolding parse_ipv6 is_v4_mapped mapped_quad find_block
is_blocked_ip_fuel zero ip = record { blocked = true; cidr = codes "not-an-ip" }
is_blocked_ip_fuel (suc fuel) ip = elim (parse_ipv4 ip) [
  | some v4 ↦ block_result (find_block v4 ipv4_blocks)
  | none ↦ elim (parse_ipv6 ip) [
    | some v6 ↦
        let again = is_blocked_ip_fuel fuel (mapped_quad v6) in
        if is_v4_mapped v6 then again else block_result (find_block v6 ipv6_blocks)
    | none ↦ record { blocked = true; cidr = codes "not-an-ip" }
  ]
]

unfoldable pub is_blocked_ip : Bytes → BlockResult
unfolding is_blocked_ip_fuel
is_blocked_ip = is_blocked_ip_fuel 2

pub record DnsRecord : Type 0 where
  pub address : Bytes
  pub family : ℕ

-- What a lookup does: it returns records, or throws with a text.
pub data Lookup : Type 0 where
  records : List DnsRecord → Lookup
  throws : Bytes → Lookup

pub record GuardResult : Type 0 where
  pub ok : Bool
  pub reason : Bytes
  pub addresses : List Bytes

abbrev pub refuse : Bytes → GuardResult
refuse reason = record { ok = false; reason = reason; addresses = [] }

-- The loop over the resolved records: the first blocked one refuses them all.
unfoldable pub check_records : Bytes → List DnsRecord → List Bytes → GuardResult
unfolding is_blocked_ip
check_records host [] addresses = record { ok = true; reason = []; addresses = addresses }
check_records host (rec ∷ recs) addresses =
    let r = is_blocked_ip rec.address in
    let more = check_records host recs (addresses ++ rec.address ∷ []) in
    if r.blocked
    then refuse (codes "target " ++ host ++ codes " resolves to blocked range " ++ r.cidr)
    else more

abbrev pub check_lookup : Bytes → Lookup → GuardResult
check_lookup host (throws what) =
    refuse (codes "DNS resolve failed for " ++ host ++ codes ": " ++ what)
check_lookup host (records []) = refuse (codes "DNS resolve returned no address for " ++ host)
check_lookup host (records (rec ∷ recs)) = check_records host (rec ∷ recs) []

unfoldable pub guard_target : Bytes → (Bytes → Lookup) → GuardResult
unfolding is_ip_literal is_blocked_ip check_records is_empty
guard_target host lookup =
    if is_empty host
    then refuse (codes "empty host")
    else if not (is_ip_literal host == 0)
    then (let r = is_blocked_ip host in
        if r.blocked
        then refuse (codes "target IP " ++ host ++ codes " is in blocked range " ++ r.cidr)
        else record { ok = true; reason = []; addresses = host ∷ [] })
    else check_lookup host (lookup host)
