-- ===== src/Ssrf/Examples.antt =====
-- The guard's theorems at concrete addresses and names.
use github_codespaces_proxy.Base.{
  ◌/◌, ◌^◌, ◌≡◌, ◌≢◌, refl, ◌↔◌, true, some, List, [], ◌∷◌, Bytes, IsByte, All, length, codes,
  arith,
}
use github_codespaces_proxy.Ssrf.Blocks.{in_block}
use github_codespaces_proxy.Ssrf.Cidr.{value, in_block_iff_cidr}
use github_codespaces_proxy.Ssrf.Ipv4.{parse_ipv4}
use github_codespaces_proxy.Ssrf.Ipv4.Print.{dotted, parse_ipv4-dotted}
use github_codespaces_proxy.Ssrf.Ipv6.{ipv6_to_bytes}
use github_codespaces_proxy.Ssrf.Shape.{ipv6_to_bytes_shape}
use github_codespaces_proxy.Ssrf.Guard.{Lookup, records, is_blocked_ip, guard_target}
use github_codespaces_proxy.Ssrf.Safety.{IsForbidden, IsAllowed, read_address, is_blocked_ip_iff}
use github_codespaces_proxy.Ssrf.Target.{Accepts, guard_target_iff, guard_target_safe}

abbrev mapped_loopback : Bytes
mapped_loopback = codes "::ffff:127.0.0.1"

abbrev public_records : Bytes → Lookup
public_records host = records (
    record { address = codes "93.184.216.34"; family = 4 }
    ∷ record { address = codes "2606:2800::1"; family = 6 }
    ∷ [])

in_block_iff_cidr_example :
    (in_block (10 ∷ 1 ∷ 2 ∷ 3 ∷ []) (10 ∷ 0 ∷ 0 ∷ 0 ∷ []) 8 ≡ true)
    ↔ (value (10 ∷ 1 ∷ 2 ∷ 3 ∷ []) / 2 ^ 24 ≡ value (10 ∷ 0 ∷ 0 ∷ 0 ∷ []) / 2 ^ 24)
in_block_iff_cidr_example =
    in_block_iff_cidr (10 ∷ 1 ∷ 2 ∷ 3 ∷ []) (10 ∷ 0 ∷ 0 ∷ 0 ∷ []) 8
      (omega arith, (omega arith, (omega arith, (omega arith, tt))))
      (omega arith, (omega arith, (omega arith, (omega arith, tt)))) refl (omega arith)

parse_ipv4-dotted_example : parse_ipv4 (dotted 203 0 113 9) ≡ some (203 ∷ 0 ∷ 113 ∷ 9 ∷ [])
parse_ipv4-dotted_example =
    parse_ipv4-dotted 203 0 113 9 (omega arith) (omega arith) (omega arith) (omega arith)

abbrev loopback : Bytes
loopback = 0 ∷ 0 ∷ 0 ∷ 0 ∷ 0 ∷ 0 ∷ 0 ∷ 0 ∷ 0 ∷ 0 ∷ 0 ∷ 0 ∷ 0 ∷ 0 ∷ 0 ∷ 1 ∷ []

loopback_bytes : ipv6_to_bytes (codes "::1") ≡ some loopback
unfolding ipv6_to_bytes
loopback_bytes = refl

ipv6_to_bytes_shape_example : All IsByte loopback × (length loopback ≡ 16)
ipv6_to_bytes_shape_example = ipv6_to_bytes_shape (codes "::1") loopback_bytes

is_blocked_ip_iff_example :
    ((is_blocked_ip mapped_loopback).blocked ≡ true) ↔ IsForbidden (read_address mapped_loopback)
is_blocked_ip_iff_example = is_blocked_ip_iff mapped_loopback

abbrev public_addresses : List Bytes
public_addresses = codes "93.184.216.34" ∷ codes "2606:2800::1" ∷ []

guard_target_iff_example :
    (((guard_target (codes "example.com") public_records).ok ≡ true)
      × ((guard_target (codes "example.com") public_records).addresses ≡ public_addresses))
    ↔ Accepts (codes "example.com") public_records public_addresses
guard_target_iff_example = guard_target_iff (codes "example.com") public_records public_addresses

public_accepted : (guard_target (codes "example.com") public_records).ok ≡ true
unfolding guard_target parse_ipv4 ipv6_to_bytes
public_accepted = refl

guard_target_safe_example :
    ((guard_target (codes "example.com") public_records).addresses ≢ [])
    × All IsAllowed (guard_target (codes "example.com") public_records).addresses
guard_target_safe_example = guard_target_safe (codes "example.com") public_records public_accepted
