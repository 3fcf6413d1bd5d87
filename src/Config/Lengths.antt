-- ===== src/Config/Lengths.antt =====
-- No step of `parseConfig` makes the rest of the text longer.
use github_codespaces_proxy.Base.{ℕ, ◌≤◌, Bool, true, false, [], ◌∷◌, arith, Bytes, length}
use github_codespaces_proxy.Config.{
  skip_from, skip_ws, quoted_key, bare_key, quoted_value, bare_value, skip_char, value_at,
  after_key,
}

pub skip_from-length : (b : Bool) (s : Bytes) → length (skip_from b s) ≤ length s
unfolding skip_from
skip_from-length b [] = omega arith
skip_from-length true (c ∷ s) =
    let h = skip_from-length true s in let k = skip_from-length false s in ground arith
skip_from-length false (c ∷ s) =
    let h = skip_from-length true s in let k = skip_from-length false s in ground arith

pub skip_ws-length : (s : Bytes) → length (skip_ws s) ≤ length s
unfolding skip_ws
skip_ws-length s = skip_from-length false s

pub quoted_key-length : (s : Bytes) → length (quoted_key s).1 ≤ length s
unfolding quoted_key
quoted_key-length [] = omega arith
quoted_key-length (c ∷ s) = let h = quoted_key-length s in ground arith

pub bare_key-length : (s : Bytes) → length (bare_key s).1 ≤ length s
unfolding bare_key
bare_key-length [] = omega arith
bare_key-length (c ∷ s) = let h = bare_key-length s in ground arith

pub quoted_value-length : (s : Bytes) → length (quoted_value s).1 ≤ length s
unfolding quoted_value
quoted_value-length [] = omega arith
quoted_value-length (c ∷ []) = ground arith
quoted_value-length (c ∷ d ∷ s) =
    let h = quoted_value-length (d ∷ s) in let k = quoted_value-length s in ground arith

pub bare_value-length : (s : Bytes) → length (bare_value s).1 ≤ length s
unfolding bare_value
bare_value-length [] = omega arith
bare_value-length (c ∷ s) = let h = bare_value-length s in ground arith

pub skip_char-length : (p : ℕ) (s : Bytes) → length (skip_char p s) ≤ length s
unfolding skip_char
skip_char-length p [] = omega arith
skip_char-length p (c ∷ s) = ground arith

pub value_at-length : (s : Bytes) → length (value_at s).1 ≤ length s
unfolding value_at
value_at-length [] = omega arith
value_at-length (c ∷ s) =
    let h = quoted_value-length s in let k = bare_value-length (c ∷ s) in ground arith

pub after_key-length : (s : Bytes) → length (after_key s).1 ≤ length s
unfolding after_key
after_key-length s =
    let a = skip_ws-length s in
    let b = skip_char-length b':' (skip_ws s) in
    let t = skip_char b':' (skip_ws s) in
    let c = skip_ws-length t in
    let d = value_at-length (skip_ws t) in
    let e = skip_ws-length (value_at (skip_ws t)).1 in
    let f = skip_char-length b',' (skip_ws (value_at (skip_ws t)).1) in omega arith
