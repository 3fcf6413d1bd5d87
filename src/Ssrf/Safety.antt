-- ===== src/Ssrf/Safety.antt =====
-- `isBlockedIp` of src/common/ssrf.cpp against the CIDR tables.
use github_codespaces_proxy.Base.{
  ℕ, suc, ◌*◌, ◌-◌, ◌/◌, ◌^◌, ◌≤◌, ◌≡◌, refl, sym, ◌∙◌, true, false, none, some, List, [], ◌∷◌,
  arith, if◌then◌else◌, Bytes, IsByte, All, length, codes, drop, Option-cases, inl, inr, ◌⊎◌, ◌↔◌,
  Bool-cases, find_char,
}
use github_codespaces_proxy.Ssrf.Blocks.{Block, ipv4_blocks, ipv6_blocks, in_block, find_block}
use github_codespaces_proxy.Ssrf.Cidr.{value, in_block_iff_cidr}
use github_codespaces_proxy.Ssrf.Ipv4.{parse_ipv4}
use github_codespaces_proxy.Ssrf.Ipv4.Print.{parse_ipv4-dotted}
use github_codespaces_proxy.Ssrf.Shape.{parse_ipv4_shape, ipv6_to_bytes_shape}
use github_codespaces_proxy.Ssrf.Guard.{
  BlockResult, block_result, parse_ipv6, is_v4_mapped, mapped_quad, is_blocked_ip_fuel,
  is_blocked_ip,
}

-- What a text denotes: an IPv4 address (a mapped IPv6 address counts as one), an IPv6 address, or
-- no address.
pub data Address : Type 0 where
  ipv4 : Bytes → Address
  ipv6 : Bytes → Address
  invalid : Address

abbrev unmap : Bytes → Address
unmap v6 = if is_v4_mapped v6 then ipv4 (drop 12 v6) else ipv6 v6

pub read_address : Bytes → Address
read_address ip = elim (parse_ipv4 ip) [
  | some v4 ↦ ipv4 v4
  | none ↦ elim (parse_ipv6 ip) [ some v6 ↦ unmap v6 | none ↦ invalid ]
]

-- The address and the base agree in the block's prefix.
abbrev pub InCidr : Bytes → Block → Type 0
InCidr v b = value v / 2 ^ (8 * length v - b.bits) ≡ value b.base / 2 ^ (8 * length v - b.bits)

abbrev pub InSome : Bytes → List Block → Type 0
InSome v [] = ⊥
InSome v (b ∷ bs) = InCidr v b ⊎ InSome v bs

abbrev pub IsForbidden : Address → Type 0
IsForbidden (ipv4 v) = InSome v ipv4_blocks
IsForbidden (ipv6 v) = InSome v ipv6_blocks
IsForbidden invalid = Unit

-- Blocks whose base has n bytes.
abbrev Fits : ℕ → Block → Type 0
Fits n b = All IsByte b.base × (length b.base ≡ n) × (b.bits ≤ 8 * n)

find_block_iff :
    (v : Bytes) (bs : List Block)
    → All IsByte v
    → All (Fits (length v)) bs
    → ((block_result (find_block v bs)).blocked ≡ true) ↔ InSome v bs
unfolding find_block
find_block_iff v [] hv hb = (λ e. cc, λ e. absurd e)
find_block_iff v (b ∷ bs) hv hb =
    let c = in_block_iff_cidr v b.base b.bits hv hb.0.0 (sym hb.0.1) hb.0.2 in
    let ih = find_block_iff v bs hv hb.1 in
    elim (Bool-cases (in_block v b.base b.bits)) [
      | inl e ↦ rw e ((λ _. inl (c.0 e)), (λ _. refl))
      | inr e ↦ rw e ((λ h. inr (ih.0 h)), λ h. elim h [ inl i ↦ cc (c.1 i) | inr i ↦ ih.1 i ])
    ]

ipv4_iff :
    (v : Bytes)
    → All IsByte v
    → length v ≡ 4
    → ((block_result (find_block v ipv4_blocks)).blocked ≡ true) ↔ InSome v ipv4_blocks
ipv4_iff v hv l = find_block_iff v ipv4_blocks hv (rw l (omega arith))

ipv6_iff :
    (v : Bytes)
    → All IsByte v
    → length v ≡ 16
    → ((block_result (find_block v ipv6_blocks)).blocked ≡ true) ↔ InSome v ipv6_blocks
ipv6_iff v hv l = find_block_iff v ipv6_blocks hv (rw l (omega arith))

parse_ipv6_shape :
    (ip : Bytes) {v6 : Bytes} → parse_ipv6 ip ≡ some v6 → All IsByte v6 × (length v6 ≡ 16)
unfolding parse_ipv6
parse_ipv6_shape ip h = elim (Option-cases (find_char b':' ip)) [
  | inl e ↦ cc (rw (e, parse_ipv6) at h)
  | inr (i, e) ↦ ipv6_to_bytes_shape ip (rw (e, parse_ipv6) at h)
]

-- The last four of sixteen bytes are what the mapped quad prints.
mapped_quad-drop :
    (v6 : Bytes)
    → All IsByte v6
    → length v6 ≡ 16
    → (parse_ipv4 (mapped_quad v6) ≡ some (drop 12 v6))
      × All IsByte (drop 12 v6)
      × (length (drop 12 v6) ≡ 4)
unfolding mapped_quad
mapped_quad-drop (a ∷ b ∷ c ∷ d ∷ e ∷ f ∷ g ∷ h ∷ i ∷ j ∷ k ∷ l ∷ m ∷ n ∷ o ∷ p ∷ []) v e' =
    let t = v.1.1.1.1.1.1.1.1.1.1.1.1 in
    (parse_ipv4-dotted m n o p t.0 t.1.0 t.1.1.0 t.1.1.1.0, t, omega arith)
mapped_quad-drop _ v e' = absurd (omega arith)

-- One round on each kind of text.
on_ipv4 :
    (f : ℕ) (ip : Bytes) {v4 : Bytes}
    → parse_ipv4 ip ≡ some v4
    → is_blocked_ip_fuel (suc f) ip ≡ block_result (find_block v4 ipv4_blocks)
unfolding is_blocked_ip_fuel
on_ipv4 f ip e = rw (e, is_blocked_ip_fuel)

on_ipv6 :
    (f : ℕ) (ip : Bytes) {v6 : Bytes}
    → parse_ipv4 ip ≡ none
    → parse_ipv6 ip ≡ some v6
    → is_blocked_ip_fuel (suc f) ip ≡ (
        if is_v4_mapped v6
        then is_blocked_ip_fuel f (mapped_quad v6)
        else block_result (find_block v6 ipv6_blocks))
unfolding is_blocked_ip_fuel
on_ipv6 f ip e e' = rw (e, e', is_blocked_ip_fuel)

on_invalid :
    (f : ℕ) (ip : Bytes)
    → parse_ipv4 ip ≡ none
    → parse_ipv6 ip ≡ none
    → is_blocked_ip_fuel (suc f) ip ≡ record { blocked = true; cidr = codes "not-an-ip" }
unfolding is_blocked_ip_fuel
on_invalid f ip e e' = rw (e, e', is_blocked_ip_fuel)

-- The table that decides, by what the text denotes.
decided : Address → BlockResult
decided (ipv4 v) = block_result (find_block v ipv4_blocks)
decided (ipv6 v) = block_result (find_block v ipv6_blocks)
decided invalid = record { blocked = true; cidr = codes "not-an-ip" }

is_blocked_ip_fuel-decided :
    (f : ℕ) (ip : Bytes) → is_blocked_ip_fuel (suc (suc f)) ip ≡ decided (read_address ip)
unfolding decided read_address
is_blocked_ip_fuel-decided f ip = elim (Option-cases (parse_ipv4 ip)) [
  | inr (v4, e) ↦ on_ipv4 (suc f) ip e ∙ rw (e, read_address)
  | inl e ↦ elim (Option-cases (parse_ipv6 ip)) [
    | inl e' ↦ on_invalid (suc f) ip e e' ∙ rw (e, e', read_address)
    | inr (v6, e') ↦ on_ipv6 (suc f) ip e e' ∙ unmapped v6 e e'
  ]
]
  where
    unmapped :
        (v6 : Bytes)
        → parse_ipv4 ip ≡ none
        → parse_ipv6 ip ≡ some v6
        → (if is_v4_mapped v6
            then is_blocked_ip_fuel (suc f) (mapped_quad v6)
            else block_result (find_block v6 ipv6_blocks))
          ≡ decided (read_address ip)
    unmapped v6 e e' =
        let (hv, l) = parse_ipv6_shape ip e' in
        let (q, _, _) = mapped_quad-drop v6 hv l in
        elim (Bool-cases (is_v4_mapped v6)) [
          | inl m ↦ rw (m, e, e', read_address, m) (on_ipv4 f (mapped_quad v6) q)
          | inr m ↦ rw (m, e, e', read_address, m) refl
        ]

IsShaped : Address → Type 0
IsShaped (ipv4 v) = All IsByte v × (length v ≡ 4)
IsShaped (ipv6 v) = All IsByte v × (length v ≡ 16)
IsShaped invalid = Unit

read_address-IsShaped : (ip : Bytes) → IsShaped (read_address ip)
unfolding read_address IsShaped
read_address-IsShaped ip = elim (Option-cases (parse_ipv4 ip)) [
  | inr (v4, e) ↦ rw (e, read_address) (parse_ipv4_shape ip e)
  | inl e ↦ elim (Option-cases (parse_ipv6 ip)) [
    | inl e' ↦ rw (e, e', read_address) tt
    | inr (v6, e') ↦
        let s = parse_ipv6_shape ip e' in
        elim (Bool-cases (is_v4_mapped v6)) [
          | inl m ↦ rw (e, e', read_address, m) (let q = mapped_quad-drop v6 s.0 s.1 in (q.1, q.2))
          | inr m ↦ rw (e, e', read_address, m) s
        ]
  ]
]

decided_iff : (a : Address) → IsShaped a → ((decided a).blocked ≡ true) ↔ IsForbidden a
unfolding decided IsShaped
decided_iff (ipv4 v) (hv, l) = ipv4_iff v hv l
decided_iff (ipv6 v) (hv, l) = ipv6_iff v hv l
decided_iff invalid s = ((λ _. tt), λ _. refl)

-- A text is blocked exactly if it denotes no address, or an IPv4 address, mapped ones included, in
-- the CIDR range of an entry of the IPv4 table, or another IPv6 address in the range of an entry
-- of the IPv6 table.
pub is_blocked_ip_iff :
    (ip : Bytes) → ((is_blocked_ip ip).blocked ≡ true) ↔ IsForbidden (read_address ip)
unfolding is_blocked_ip
is_blocked_ip_iff ip =
    rw (is_blocked_ip_fuel-decided 0 ip) (decided_iff (read_address ip) (read_address-IsShaped ip))

abbrev pub IsAllowed : Bytes → Type 0
IsAllowed ip = ¬ IsForbidden (read_address ip)

pub IsAllowed-of_result : (ip : Bytes) → (is_blocked_ip ip).blocked ≡ false → IsAllowed ip
IsAllowed-of_result ip e f = cc ((is_blocked_ip_iff ip).1 f)

pub blocked_of_not : (ip : Bytes) → IsAllowed ip → (is_blocked_ip ip).blocked ≡ false
blocked_of_not ip h = elim (Bool-cases (is_blocked_ip ip).blocked) [
  | inl e ↦ absurd (h ((is_blocked_ip_iff ip).0 e))
  | inr e ↦ e
]
