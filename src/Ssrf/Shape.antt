-- ===== src/Ssrf/Shape.antt =====
-- What the address parsers return: four bytes, and sixteen.
use github_codespaces_proxy.Base.{
  ℕ, zero, suc, ◌+◌, ◌*◌, ◌-◌, ◌≡◌, refl, Option, none, some, ◌||◌, List, [], ◌∷◌, ◌++◌, arith, ltb,
  Bytes, IsByte, All, length, is_empty, codes, take, drop, replicate, find, find_from,
  length-append, Option-cases, inl, inr, Bool-cases, length-replicate,
}
use github_codespaces_proxy.Ssrf.Ipv4.{◌>>=◌, parse_ipv4, part, dot, parts}
use github_codespaces_proxy.Ssrf.Ipv6.{
  ipv6_to_bytes, strip_zone, expand_ipv4_tail, all_groups, exact_groups, filled_groups, group_bytes,
  group_value, split_groups,
}

pub >>=-eq-some {ℓ κ} :
    {A : Type ℓ} {B : Type κ} (m : Option A) (f : A → Option B) {b : B}
    → (m >>= f) ≡ some b
    → (a : A) × (m ≡ some a) × (f a ≡ some b)
>>=-eq-some none f h = cc
>>=-eq-some (some a) f h = (a, refl, h)

part-IsByte : (s : Bytes) {v : ℕ} {rest : Bytes} → part s ≡ some (v, rest) → IsByte v
unfolding part
part-IsByte [] h = cc
part-IsByte (c ∷ cs) h = ground arith

abbrev Quad : ℕ → Bytes → Type 0
Quad n bs = All IsByte bs × (length bs ≡ suc n)

parts_shape : (n : ℕ) (s : Bytes) {bs : Bytes} → parts n s ≡ some bs → Quad n bs
unfolding parts
parts_shape zero s h =
    let ((v, rest), e, f) = >>=-eq-some (part s) _ h in let b = part-IsByte s e in ground arith
parts_shape (suc n) s h =
    let ((v, rest), e, f) = >>=-eq-some (part s) _ h in
    let (rest', e', f') = >>=-eq-some (dot rest) _ f in
    let (more, e'', f'') = >>=-eq-some (parts n rest') _ f' in
    let b = part-IsByte s e in let ih = parts_shape n rest' e'' in ground arith

-- A parsed IPv4 literal is four bytes.
pub parse_ipv4_shape :
    (s : Bytes) {bs : Bytes} → parse_ipv4 s ≡ some bs → All IsByte bs × (length bs ≡ 4)
unfolding parse_ipv4
parse_ipv4_shape s h = parts_shape 3 s h

group_bytes_shape :
    (gs : List Bytes) {bs : Bytes}
    → group_bytes gs ≡ some bs
    → All IsByte bs × (length bs ≡ 2 * length gs)
unfolding group_bytes
group_bytes_shape [] h = ground arith
group_bytes_shape (g ∷ gs) h =
    let (n, e, f) = >>=-eq-some (group_value g) _ h in
    let (rest, e', f') = >>=-eq-some (group_bytes gs) _ f in
    let ih = group_bytes_shape gs e' in ground arith

exact_groups-length :
    (head : List Bytes) {gs : List Bytes} → exact_groups head ≡ some gs → length gs ≡ 8
unfolding exact_groups
exact_groups-length head h = ground arith

filled_groups-length :
    (head tail : List Bytes) {gs : List Bytes} → filled_groups head tail ≡ some gs → length gs ≡ 8
unfolding filled_groups
filled_groups-length head tail h =
    let n : ℕ = 8 - (length head + length tail) in
    ground (
      arith,
      length-append head (replicate n (codes "0") ++ tail),
      length-append (replicate n (codes "0")) tail,
      length-replicate n (codes "0"),
    )

all_groups-length : (str : Bytes) {gs : List Bytes} → all_groups str ≡ some gs → length gs ≡ 8
unfolding all_groups
all_groups-length str {gs} h = elim (Option-cases (find (codes "::") str)) [
  | inl e ↦ exact_groups-length (split_groups str) (rw (e, all_groups) at h)
  | inr (pos, e) ↦ elim (Option-cases (find_from (codes "::") str (pos + 1))) [
    | inl f ↦
        filled_groups-length (split_groups (take pos str)) (split_groups (drop (pos + 2) str))
          (rw (e, f, all_groups) at h)
    | inr (_, f) ↦ cc (rw (e, f, all_groups) at h)
  ]
]

-- A parsed IPv6 literal is sixteen bytes.
pub ipv6_to_bytes_shape :
    (ip : Bytes) {bs : Bytes} → ipv6_to_bytes ip ≡ some bs → All IsByte bs × (length bs ≡ 16)
unfolding ipv6_to_bytes
ipv6_to_bytes_shape ip {bs} h =
    elim (Bool-cases (is_empty (strip_zone ip) || ltb 45 (length (strip_zone ip)))) [
      | inl e ↦ cc (rw e at h)
      | inr e ↦
          let (str, e1, f1) = >>=-eq-some (expand_ipv4_tail (strip_zone ip)) _ (rw e at h) in
          let (gs, e2, f2) = >>=-eq-some (all_groups str) _ f1 in
          let s = group_bytes_shape gs f2 in let l = all_groups-length str e2 in ground arith
    ]
