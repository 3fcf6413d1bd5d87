-- ===== src/Ssrf/Target.antt =====
-- `guardTarget` of src/common/ssrf.cpp: which targets pass, and with which addresses.
use github_codespaces_proxy.Base.{
  ◌≡◌, refl, sym, ◌∙◌, true, false, List, [], ◌∷◌, ◌++◌, map, arith, ◌==◌, Bytes, All, inl, inr,
  ◌↔◌, ◌≢◌, Bool-cases, append_assoc, append-nil,
}
use github_codespaces_proxy.Ssrf.Ipv4.{parse_ipv4}
use github_codespaces_proxy.Ssrf.Guard.{
  is_ip_literal, is_blocked_ip, DnsRecord, Lookup, records, throws, check_records, guard_target,
  check_lookup,
}
use github_codespaces_proxy.Ssrf.Safety.{IsAllowed, IsAllowed-of_result, blocked_of_not}

abbrev pub addresses_of : List DnsRecord → List Bytes
addresses_of = map (λ r. r.address)

check_records_ok :
    (host : Bytes) (recs : List DnsRecord) (acc : List Bytes)
    → (check_records host recs acc).ok ≡ true
    → All IsAllowed (addresses_of recs)
      × ((check_records host recs acc).addresses ≡ acc ++ addresses_of recs)
unfolding check_records
check_records_ok host [] acc h = (tt, sym (append-nil acc))
check_records_ok host (r ∷ rs) acc h = elim (Bool-cases (is_blocked_ip r.address).blocked) [
  | inl e ↦ cc (rw e at h)
  | inr e ↦
      let (a, q) = check_records_ok host rs (acc ++ r.address ∷ []) (rw e at h) in
      rw e (
        (IsAllowed-of_result r.address e, a),
        q ∙ append_assoc acc (r.address ∷ []) (addresses_of rs),
      )
]

check_records-All :
    (host : Bytes) (recs : List DnsRecord) (acc : List Bytes)
    → All IsAllowed (addresses_of recs)
    → (check_records host recs acc).ok ≡ true
unfolding check_records
check_records-All host [] acc h = refl
check_records-All host (r ∷ rs) acc h =
    rw (blocked_of_not r.address h.0) (check_records-All host rs (acc ++ r.address ∷ []) h.1)

-- When a target is to be accepted, and the addresses that the connection may then use.
pub data Accepts (host : Bytes) (lookup : Bytes → Lookup) (addresses : List Bytes) : Type 0 where
  literal :
      is_ip_literal host ≢ 0
      → IsAllowed host
      → addresses ≡ host ∷ []
      → Accepts host lookup addresses
  resolved :
      (recs : List DnsRecord)
      → host ≢ []
      → is_ip_literal host ≡ 0
      → lookup host ≡ records recs
      → recs ≢ []
      → All IsAllowed (addresses_of recs)
      → addresses ≡ addresses_of recs
      → Accepts host lookup addresses

Accepts-sound_lookup :
    (host : Bytes) (lookup : Bytes → Lookup) (l : Lookup)
    → lookup host ≡ l
    → host ≢ []
    → is_ip_literal host ≡ 0
    → (check_lookup host l).ok ≡ true
    → Accepts host lookup (check_lookup host l).addresses
Accepts-sound_lookup host lookup (throws what) e n z h = cc
Accepts-sound_lookup host lookup (records []) e n z h = cc
Accepts-sound_lookup host lookup (records (r ∷ rs)) e n z h =
    let (a, q) = check_records_ok host (r ∷ rs) [] h in resolved (r ∷ rs) n z e (λ x. cc) a q

Accepts-sound :
    (host : Bytes) (lookup : Bytes → Lookup)
    → (guard_target host lookup).ok ≡ true
    → Accepts host lookup (guard_target host lookup).addresses
unfolding guard_target parse_ipv4
Accepts-sound [] lookup h = cc
Accepts-sound (c ∷ cs) lookup h =
    let host : Bytes = c ∷ cs in
    elim (Bool-cases (is_ip_literal host == 0)) [
      | inl z ↦
          rw z (
            Accepts-sound_lookup host lookup (lookup host) refl (λ x. cc) (ground arith)
              (rw z at h))
      | inr l ↦ elim (Bool-cases (is_blocked_ip host).blocked) [
        | inl b ↦ cc (rw (l, b) at h)
        | inr b ↦ rw (l, b) (literal (ground arith) (IsAllowed-of_result host b) refl)
      ]
    ]

check_records_complete :
    (host : Bytes) (recs : List DnsRecord) {found : List Bytes}
    → All IsAllowed (addresses_of recs)
    → found ≡ addresses_of recs
    → ((check_records host recs []).ok ≡ true) × ((check_records host recs []).addresses ≡ found)
check_records_complete host recs a q =
    let ok = check_records-All host recs [] a in (ok, (check_records_ok host recs [] ok).1 ∙ sym q)

Accepts-complete :
    (host : Bytes) (lookup : Bytes → Lookup) {found : List Bytes}
    → Accepts host lookup found
    → ((guard_target host lookup).ok ≡ true) × ((guard_target host lookup).addresses ≡ found)
unfolding guard_target parse_ipv4
Accepts-complete [] lookup (literal l a e) = absurd (l refl)
Accepts-complete (c ∷ cs) lookup (literal l a e) =
    let e' : (is_ip_literal (c ∷ cs) == 0) ≡ false = ground arith in
    rw (e', blocked_of_not (c ∷ cs) a) (refl, sym e)
Accepts-complete host lookup (resolved [] n z e ne a q) = absurd (ne refl)
Accepts-complete [] lookup (resolved (r ∷ rs) n z e ne a q) = absurd (n refl)
Accepts-complete (c ∷ cs) lookup (resolved (r ∷ rs) n z e ne a q) =
    let e' : (is_ip_literal (c ∷ cs) == 0) ≡ true = ground arith in
    rw (e', e) (check_records_complete (c ∷ cs) (r ∷ rs) a q)

-- The guard accepts a target and hands over a list of addresses exactly if the target is an
-- allowed address literal and the list is that literal, or it is a nonempty name that the lookup
-- resolves to at least one record, all of them allowed, and the list is that of their addresses in
-- order.
pub guard_target_iff :
    (host : Bytes) (lookup : Bytes → Lookup) (found : List Bytes)
    → (((guard_target host lookup).ok ≡ true) × ((guard_target host lookup).addresses ≡ found))
      ↔ Accepts host lookup found
guard_target_iff host lookup found =
    (λ h. rw (sym h.1) (Accepts-sound host lookup h.0), Accepts-complete host lookup)

Accepts-IsAllowed :
    {host : Bytes} {lookup : Bytes → Lookup} {found : List Bytes}
    → Accepts host lookup found
    → (found ≢ []) × All IsAllowed found
Accepts-IsAllowed (literal l a e) = rw e ((λ x. cc), (a, tt))
Accepts-IsAllowed (resolved [] n z e ne a q) = absurd (ne refl)
Accepts-IsAllowed (resolved (r ∷ rs) n z e ne a q) = rw q ((λ x. cc), a)

-- Whenever the guard accepts, whatever the lookup returned, there is an address to connect to and
-- every address that it hands over is an allowed one.
pub guard_target_safe :
    (host : Bytes) (lookup : Bytes → Lookup)
    → (guard_target host lookup).ok ≡ true
    → ((guard_target host lookup).addresses ≢ [])
      × All IsAllowed (guard_target host lookup).addresses
guard_target_safe host lookup h = Accepts-IsAllowed (Accepts-sound host lookup h)
