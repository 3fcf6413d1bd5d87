-- ===== src/Ssrf/Cidr.antt =====
-- A block in CIDR arithmetic: an address of w bits lies in base/bits if the two numbers have the
-- same quotient by 2 ^ (w - bits).
use github_codespaces_proxy.Base.{
  ℕ, zero, suc, ◌+◌, ◌*◌, ◌/◌, ◌%◌, ◌^◌, ◌-◌, ◌≤◌, ◌<◌, ◌≡◌, refl, true, [], ◌∷◌, arith, ◌==◌,
  Bytes, IsByte, length, All, bit_and, ◌↔◌, ==_iff, ap, sym, ◌∙◌,
}
use native.Mathlib.Nat.{
  add-zero, pow-zero, pow-suc, mul_assoc, mul-add-div_right, mul-add-div, div-eq_of_lt,
  div-lt_iff_lt-mul, div-div-eq-div-mul,
}
use github_codespaces_proxy.Base.Bits.{bit_and_top}
use github_codespaces_proxy.Ssrf.Blocks.{in_block_bytes, in_block}

-- The big-endian number that the bytes stand for.
pub value : Bytes → ℕ
value [] = 0
value (x ∷ xs) = x * 256 ^ length xs + value xs

two-pow-add : (a b : ℕ) → 2 ^ (a + b) ≡ 2 ^ a * 2 ^ b
two-pow-add a zero = omega (arith, pow-zero 2, ap (λ (t : ℕ). 2 ^ t) (add-zero a))
two-pow-add a (suc b) =
    let e : a + suc b ≡ suc (a + b) = omega arith in
    rw (e, pow-suc 2 (a + b), pow-suc 2 b, two-pow-add a b)
      (omega (arith, mul_assoc (2 ^ a) (2 ^ b) 2))

two-pow-pos : (a : ℕ) → 0 < 2 ^ a
two-pow-pos zero = omega arith
two-pow-pos (suc a) = rw pow-suc (omega (arith, two-pow-pos a))

pow_256 : (k : ℕ) → 256 ^ k ≡ 2 ^ (8 * k)
pow_256 zero = refl
pow_256 (suc k) =
    let e : 8 * suc k ≡ 8 * k + 8 = omega arith in
    rw (e, two-pow-add (8 * k) 8, pow-suc 256 k, pow_256 k) refl

value-lt : (xs : Bytes) → All IsByte xs → value xs < 256 ^ length xs
unfolding value
value-lt [] h = omega arith
value-lt (x ∷ xs) h = rw pow-suc (grind (arith, value-lt xs h.1))

-- Quotient and remainder are unique.
split_unique : (x y a b q : ℕ) → a < q → b < q → x * q + a ≡ y * q + b → (x ≡ y) × (a ≡ b)
split_unique x y a b q ha hb e =
    let e' : x ≡ y =
      sym (omega (arith, mul-add-div_right {m = q} (omega arith) x a, div-eq_of_lt ha))
      ∙ ap (λ (t : ℕ). t / q) e
      ∙ omega (arith, mul-add-div_right {m = q} (omega arith) y b, div-eq_of_lt hb) in
    (e', omega (arith, ap (λ (t : ℕ). t * q) e'))

-- The number of an address, cut after `x` whole bytes' worth of quotient `q` of the rest.
value_cut :
    (x : ℕ) (xs : Bytes) (h k : ℕ)
    → h + k ≡ 8 * length xs
    → value (x ∷ xs) / 2 ^ h ≡ x * 2 ^ k + value xs / 2 ^ h
unfolding value
value_cut x xs h k e =
    rw (pow_256 (length xs), sym e, two-pow-add h k)
      (ap (λ (t : ℕ). (t + value xs) / 2 ^ h) (omega (arith, mul_assoc (2 ^ h) (2 ^ k) x))
        ∙ mul-add-div {m = 2 ^ h} (two-pow-pos h) (2 ^ k * x) (value xs)
        ∙ omega arith)

value_low :
    (xs : Bytes) (h k : ℕ) → All IsByte xs → h + k ≡ 8 * length xs → value xs / 2 ^ h < 2 ^ k
value_low xs h k b e =
    (div-lt_iff_lt-mul {k = 2 ^ h} {x = value xs} {y = 2 ^ k} (two-pow-pos h)).1
      (omega (arith, value-lt xs b, pow_256 (length xs), ap (λ (t : ℕ). 2 ^ t) e, two-pow-add h k))

-- The masked byte behind the whole ones.
masked_iff :
    (x y r : ℕ)
    → x < 256
    → y < 256
    → r < 8
    → ((bit_and x (0xff * 2 ^ (8 - r) % 256) == bit_and y (0xff * 2 ^ (8 - r) % 256)) ≡ true)
      ↔ (x / 2 ^ (8 - r) ≡ y / 2 ^ (8 - r))
masked_iff x y r hx hy hr =
    rw (bit_and_top x r hx (omega arith), bit_and_top y r hy (omega arith))
      (
        λ e. cancel (8 - r) ((==_iff _ _).0 e),
        λ e. (==_iff _ _).1 (ap (λ (t : ℕ). t * 2 ^ (8 - r)) e),
      )
  where
    cancel : (s : ℕ) → x / 2 ^ s * 2 ^ s ≡ y / 2 ^ s * 2 ^ s → x / 2 ^ s ≡ y / 2 ^ s
    cancel s e =
        (split_unique (x / 2 ^ s) (y / 2 ^ s) 0 0 (2 ^ s) (two-pow-pos s) (two-pow-pos s)
          (omega arith)).0

-- The first byte's quotient, where only some of its bits are in the prefix.
value_top :
    (x : ℕ) (xs : Bytes) (s h : ℕ)
    → All IsByte xs
    → h ≡ 8 * length xs + s
    → value (x ∷ xs) / 2 ^ h ≡ x / 2 ^ s
unfolding value
value_top x xs s h b e =
    rw
      (
        e,
        two-pow-add (8 * length xs) s,
        sym (div-div-eq-div-mul (value (x ∷ xs)) (2 ^ (8 * length xs)) (2 ^ s)),
      )
      (ap (λ (t : ℕ). t / 2 ^ s)
        (rw (pow_256 (length xs)) (
          mul-add-div_right {m = 2 ^ (8 * length xs)} (two-pow-pos (8 * length xs)) x (value xs)
          ∙ omega (
            arith,
            div-eq_of_lt {n = value xs} {m = 2 ^ (8 * length xs)}
                (omega (arith, value-lt xs b, pow_256 (length xs))),
          ))))

in_block_bytes_iff :
    (full r h : ℕ) (xs ys : Bytes)
    → r < 8
    → All IsByte xs
    → All IsByte ys
    → length xs ≡ length ys
    → h + (8 * full + r) ≡ 8 * length xs
    → (in_block_bytes full r xs ys ≡ true) ↔ (value xs / 2 ^ h ≡ value ys / 2 ^ h)
unfolding in_block_bytes
in_block_bytes_iff zero zero h xs ys hr hx hy l e = (
  λ _. omega (arith, value_low xs h 0 hx (omega arith), value_low ys h 0 hy (omega arith)),
  λ _. refl,
)
in_block_bytes_iff zero (suc r) h [] ys hr hx hy l e = absurd (omega arith)
in_block_bytes_iff zero (suc r) h (x ∷ xs) [] hr hx hy l e = absurd (omega arith)
in_block_bytes_iff zero (suc r) h (x ∷ xs) (y ∷ ys) hr hx hy l e =
    rw
      (
        value_top x xs (8 - suc r) h hx.1 (omega arith),
        value_top y ys (8 - suc r) h hy.1 (omega arith),
      )
      (let m = masked_iff x y (suc r) hx.0 hy.0 hr in
        (λ t. m.0 (ground arith), λ t. ground (arith, m.1 t)))
in_block_bytes_iff (suc full) r h [] ys hr hx hy l e = absurd (omega arith)
in_block_bytes_iff (suc full) r h (x ∷ xs) [] hr hx hy l e = absurd (omega arith)
in_block_bytes_iff (suc full) r h (x ∷ xs) (y ∷ ys) hr hx hy l e =
    let k : ℕ = 8 * full + r in
    let ih = in_block_bytes_iff full r h xs ys hr hx.1 hy.1 (omega arith) (omega arith) in
    rw (value_cut x xs h k (omega arith), value_cut y ys h k (omega arith))
      (
        λ t. ground (arith, ih),
        λ t.
            let (e1, e2) =
              split_unique x y _ _ (2 ^ k) (value_low xs h k hx.1 (omega arith))
                (value_low ys h k hy.1 (omega arith)) t in
            ground (arith, ih.1 e2),
      )

-- For two addresses of the same number of bytes and a prefix that fits them, inBlock holds exactly
-- if the two, read as big-endian numbers, agree after the bits behind the prefix are shifted out.
pub in_block_iff_cidr :
    (actual base : Bytes) (bits : ℕ)
    → All IsByte actual
    → All IsByte base
    → length actual ≡ length base
    → bits ≤ 8 * length actual
    → (in_block actual base bits ≡ true) ↔ (
        value actual / 2 ^ (8 * length actual - bits) ≡ value base / 2 ^ (8 * length actual - bits))
unfolding in_block
in_block_iff_cidr actual base bits ha hb l le =
    in_block_bytes_iff (bits / 8) (bits % 8) (8 * length actual - bits) actual base (omega arith) ha
      hb l (omega arith)
