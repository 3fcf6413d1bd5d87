-- ===== src/Config/Rounds.antt =====
-- The rounds of the loop of `parseConfig`.
use github_codespaces_proxy.Base.{
  ℕ, zero, suc, ◌<◌, ◌≤◌, ◌≡◌, ◌≢◌, refl, some, Bool, true, false, ◌&&◌, ◌||◌, [], ◌∷◌, arith, inl,
  inr, ◌==◌, Bool-cases, Bytes, is_space, length, if◌then◌else◌,
}
use github_codespaces_proxy.Config.{
  Values, slash_first, skip_from, skip_ws, is_key_char, bare_key, bare_value, skip_char, key_at,
  value_at, after_key, entry, store, parse_entries, parse_text, parse_config,
}
use github_codespaces_proxy.Config.Lengths.{
  skip_ws-length, quoted_key-length, bare_key-length, bare_value-length, skip_char-length,
  value_at-length, after_key-length,
}

-- What `skipWs` leaves begins with neither a blank nor a comment.
data IsSkipped : Bytes → Type 0 where
  at_end : IsSkipped []
  at_char : (c : ℕ) (s : Bytes) → is_space c ≡ false → skip_ws (c ∷ s) ≡ c ∷ s → IsSkipped (c ∷ s)

IsSkipped-if :
    (b : Bool) (x y : Bytes)
    → (b ≡ true → IsSkipped x)
    → (b ≡ false → IsSkipped y)
    → IsSkipped (if b then x else y)
IsSkipped-if true x y h k = h refl
IsSkipped-if false x y h k = k refl

skip_from-IsSkipped : (b : Bool) (s : Bytes) → IsSkipped (skip_from b s)
unfolding skip_from skip_ws
skip_from-IsSkipped true [] = at_end
skip_from-IsSkipped false [] = at_end
skip_from-IsSkipped true (c ∷ s) =
    IsSkipped-if (c == 10) _ _ (λ e. skip_from-IsSkipped false s) (λ e. skip_from-IsSkipped true s)
skip_from-IsSkipped false (c ∷ s) =
    IsSkipped-if (is_space c) _ _ (λ e. skip_from-IsSkipped false s)
      (λ e.
        IsSkipped-if (c == b'/' && slash_first s) _ _ (λ f. skip_from-IsSkipped true s)
          (λ f. at_char c s e (rw (skip_from, e, f) refl)))

skip_ws-IsSkipped : (s : Bytes) → IsSkipped (skip_ws s)
unfolding skip_ws
skip_ws-IsSkipped s = skip_from-IsSkipped false s

-- A key takes a character, if there is one at hand.
key_at-length :
    (c : ℕ) (s : Bytes) → (c == b'"') || is_key_char c ≡ true → length (key_at (c ∷ s)).1 ≤ length s
unfolding key_at bare_key
key_at-length c s h = let a = quoted_key-length s in let b = bare_key-length s in ground arith

key_at-none :
    (c : ℕ) (s : Bytes) → (c == b'"') || is_key_char c ≡ false → key_at (c ∷ s) ≡ ([], c ∷ s)
unfolding key_at bare_key
key_at-none c s h = ground arith

behind : Bytes → Bytes
behind value = skip_char b',' (skip_ws value)

behind-length : (value : Bytes) → length (behind value) ≤ length value
unfolding behind
behind-length value =
    let a = skip_ws-length value in let b = skip_char-length b',' (skip_ws value) in omega arith

-- The places that a round goes through when there is no key.
colon_case :
    (c : ℕ) (s : Bytes)
    → (c == b':') ≡ true
    → skip_ws (c ∷ s) ≡ c ∷ s
    → length (after_key (c ∷ s)).1 ≤ length s
unfolding after_key behind skip_char
colon_case c s h k =
    let a = skip_ws-length s in
    let b = value_at-length (skip_ws s) in
    let d = behind-length (value_at (skip_ws s)).1 in rw (after_key, k, h) (omega arith)

comma_case :
    (c : ℕ) (s : Bytes)
    → (c == b',') ≡ true
    → skip_ws (c ∷ s) ≡ c ∷ s
    → length (behind (c ∷ s)) ≤ length s
unfolding behind skip_char
comma_case c s h k = rw (k, h) (omega arith)

value_case :
    (c : ℕ) (s : Bytes)
    → (c == b'"') ≡ false
    → (c == b'}') ≡ false
    → is_space c ≡ false
    → skip_ws (c ∷ s) ≡ c ∷ s
    → length (behind (value_at (c ∷ s)).1) ≤ length s
unfolding value_at bare_value is_space
value_case c s q b w k = elim (Bool-cases (c == b',')) [
  | inl e ↦ rw (q, e) (comma_case c s e k)
  | inr e ↦
      let n : (c == 10) ≡ false = ground arith in
      let l = bare_value-length s in
      let d = behind-length (bare_value s).1 in rw (q, e, b, n) (omega arith)
]

after_key-shorter :
    (c : ℕ) (s : Bytes)
    → (c == b'"') ≡ false
    → (c == b'}') ≡ false
    → is_space c ≡ false
    → skip_ws (c ∷ s) ≡ c ∷ s
    → length (after_key (c ∷ s)).1 ≤ length s
unfolding after_key behind skip_char
after_key-shorter c s q b w k = elim (Bool-cases (c == b':')) [
  | inl e ↦ colon_case c s e k
  | inr e ↦ rw (after_key, k, e, k) (value_case c s q b w k)
]

-- The rest behind a round that begins at a character other than the closing brace.
entry-shorter :
    (c : ℕ) (s : Bytes)
    → (c == b'}') ≡ false
    → is_space c ≡ false
    → skip_ws (c ∷ s) ≡ c ∷ s
    → length (entry (c ∷ s)).2 ≤ length s
unfolding entry
entry-shorter c s b w k = elim (Bool-cases ((c == b'"') || is_key_char c)) [
  | inl e ↦
      let l = key_at-length c s e in let m = after_key-length (key_at (c ∷ s)).1 in omega arith
  | inr e ↦
      let q : (c == b'"') ≡ false = ground arith in
      rw (key_at-none c s e) (after_key-shorter c s q b w k)
]

-- A run of the loop of `parseConfig`, without fuel: rounds that each store an entry, up to the end of
-- the text or a closing brace.
pub data IsRun : Bytes → Values → Values → Type 0 where
  at_text_end : (s : Bytes) (out : Values) → skip_ws s ≡ [] → IsRun s out out
  at_brace : (s rest : Bytes) (out : Values) → skip_ws s ≡ b'}' ∷ rest → IsRun s out out
  at_entry :
      (c : ℕ) (s rest : Bytes) (out done : Values)
      → skip_ws s ≡ c ∷ rest
      → c ≢ b'}'
      → IsRun (entry (c ∷ rest)).2 (store (entry (c ∷ rest)).0 (entry (c ∷ rest)).1 out) done
      → IsRun s out done

parse_entries-IsRun :
    (fuel : ℕ) (s : Bytes) (out : Values) → length s < fuel → IsRun s out (parse_entries fuel s out)
unfolding parse_entries
parse_entries-IsRun zero s out l = absurd (omega arith)
parse_entries-IsRun (suc fuel) s out l =
    by_place (skip_ws s) refl (skip_ws-IsSkipped s) (λ t o h. parse_entries-IsRun fuel t o h)
  where
    by_place :
        (t : Bytes)
        → skip_ws s ≡ t
        → IsSkipped t
        → ((u : Bytes) (o : Values) → length u < fuel → IsRun u o (parse_entries fuel u o))
        → IsRun s out (parse_entries (suc fuel) s out)
    by_place [] e w ih = rw (parse_entries, e) (at_text_end s out e)
    by_place (c ∷ rest) e (at_char _ _ w k) ih = elim (Bool-cases (c == b'}')) [
      | inl b ↦
          let q : c ≡ b'}' = ground arith in
          rw (parse_entries, e, b) (at_brace s rest out (rw q at e))
      | inr b ↦
          let n = entry-shorter c rest b w k in
          let m = skip_ws-length s in
          let m' : length (c ∷ rest) ≤ length s = rw e at m in
          rw (parse_entries, e, b) (at_entry c s rest out _ e (ground arith) (ih _ _ (omega arith)))
    ]

-- What `parseConfig` makes of a text.
pub data IsParsed (s : Bytes) (values : Values) : Type 0 where
  no_object : ((rest : Bytes) → skip_ws s ≢ b'{' ∷ rest) → values ≡ [] → IsParsed s values
  object : (rest : Bytes) → skip_ws s ≡ b'{' ∷ rest → IsRun rest [] values → IsParsed s values

-- On every text parseConfig ends: without an opening brace behind the blanks and comments the
-- result is empty, and otherwise it is that of finitely many rounds, each storing the entry that
-- it reads and going on behind it, up to the end of the text or a closing brace.
pub parse_config-IsParsed : (s : Bytes) → IsParsed s (parse_config (some s))
unfolding parse_config parse_text
parse_config-IsParsed s = by_place (skip_ws s) refl
  where
    by_place : (t : Bytes) → skip_ws s ≡ t → IsParsed s (parse_config (some s))
    by_place [] e = rw (parse_config, parse_text, e) (no_object (λ rest h. cc) refl)
    by_place (c ∷ rest) e = elim (Bool-cases (c == b'{')) [
      | inl b ↦
          let q : c ≡ b'{' = ground arith in
          rw (parse_config, parse_text, e, b)
            (object rest (rw q at e)
              (parse_entries-IsRun (suc (length rest)) rest [] (omega arith)))
      | inr b ↦ rw (parse_config, parse_text, e, b) (no_object (λ other h. ground arith) refl)
    ]
