-- ===== src/Config/Written.antt =====
-- A configuration that is written with quotes, read back.
use github_codespaces_proxy.Base.{
  ℕ, zero, suc, ◌<◌, ◌≤◌, ◌≡◌, refl, ap, ◌∙◌, Bool, true, false, is_space, ◌||◌, some, [], ◌∷◌,
  ◌++◌, arith, inl, inr, ◌==◌, Bool-cases, Bytes, All, is_empty, length, length-append,
  if◌then◌else◌,
}
use github_codespaces_proxy.Util.{trim}
use github_codespaces_proxy.Config.{
  Values, put_value, skip_from, skip_ws, skip_char, with_char, quoted_key, quoted_value, key_at,
  value_at, after_key, entry, store, parse_entries, parse_config,
}

unfoldable pub escape : Bytes → Bytes
escape [] = []
escape (c ∷ s) = let rest = escape s in if c == b'"' || c == 92 then 92 ∷ c ∷ rest else c ∷ rest

-- An entry with the same blanks between all of its parts.
unfoldable pub written_entry : Bytes → Bytes → Bytes → Bytes → Bytes
unfolding escape
written_entry gap key value rest =
    b'"' ∷ (key ++ (b'"' ∷ (gap ++ (b':' ∷ (gap ++ (b'"' ∷ (escape value ++ (b'"' ∷ rest))))))))

-- What stands between the quote of a value and what follows the entry: a comma between two entries,
-- and behind the last one if it is wished for.
unfoldable pub separated : Bool → Bytes → Values → Bytes → Bytes
separated final gap [] rest = if final then gap ++ b',' ∷ rest else gap ++ rest
separated final gap (next ∷ values) rest = gap ++ b',' ∷ rest

unfoldable pub written_entries : Bool → Bytes → Values → Bytes
unfolding written_entry separated
written_entries final gap [] = b'}' ∷ []
written_entries final gap ((key, value) ∷ values) =
    gap
    ++ written_entry gap key value (separated final gap values (written_entries final gap values))

unfoldable pub written : Bool → Bytes → Values → Bytes
unfolding written_entries
written final gap values = b'{' ∷ written_entries final gap values

-- What the assignments of the values, trimmed, leave in the map.
unfoldable pub assigned : Values → Values → Values
assigned [] out = out
assigned ((key, value) ∷ values) out = assigned values (put_value key (trim value) out)

-- A nonempty key without a quote.
unfoldable pub IsKey : Bytes × Bytes → Type 0
IsKey (key, value) = (is_empty key ≡ false) × All (λ c. (c == b'"') ≡ false) key

quoted_key-append :
    (key s : Bytes) → All (λ c. (c == b'"') ≡ false) key → quoted_key (key ++ b'"' ∷ s) ≡ (key, s)
unfolding quoted_key
quoted_key-append [] s h = refl
quoted_key-append (c ∷ key) s h = rw (quoted_key, h.0, quoted_key-append key s h.1) refl

quoted_value-plain :
    (c : ℕ) (s value rest : Bytes)
    → 0 < length s
    → (c == b'"') || c == 92 ≡ false
    → quoted_value s ≡ (value, rest)
    → quoted_value (c ∷ s) ≡ (c ∷ value, rest)
unfolding quoted_value
quoted_value-plain c [] value rest l b h = absurd (omega arith)
quoted_value-plain c (d ∷ s) value rest l b h =
    let q : (c == b'"') ≡ false = ground arith in
    let e : (c == 92) ≡ false = ground arith in rw (q, e, h) refl

quoted_value-escaped :
    (c : ℕ) (s value rest : Bytes)
    → quoted_value s ≡ (value, rest)
    → quoted_value (92 ∷ c ∷ s) ≡ (c ∷ value, rest)
unfolding quoted_value
quoted_value-escaped c s value rest h = ap (with_char c) h

escape-some : (value : Bytes) (c : ℕ) (s : Bytes) → 0 < length (escape value ++ c ∷ s)
escape-some value c s = let l = length-append (escape value) (c ∷ s) in omega arith

quoted_value-append :
    (value s : Bytes) → 0 < length s → quoted_value (escape value ++ b'"' ∷ s) ≡ (value, s)
unfolding escape quoted_value
quoted_value-append [] [] l = absurd (omega arith)
quoted_value-append [] (d ∷ s) l = refl
quoted_value-append (c ∷ value) s l = elim (Bool-cases ((c == b'"') || c == 92)) [
  | inl e ↦
      rw e
        (quoted_value-escaped c (escape value ++ b'"' ∷ s) value s (quoted_value-append value s l))
  | inr e ↦ rw e (
      quoted_value-plain c (escape value ++ b'"' ∷ s) value s (escape-some value b'"' s) e
        (quoted_value-append value s l))
]

skip_ws-gap : (gap s : Bytes) → All (λ c. is_space c ≡ true) gap → skip_ws (gap ++ s) ≡ skip_ws s
unfolding skip_ws skip_from
skip_ws-gap [] s h = refl
skip_ws-gap (c ∷ gap) s h = rw (h.0, skip_ws-gap gap s h.1) refl

-- What is behind the comma, or where it would be, if the entries follow.
behind_separated :
    (final : Bool) (gap : Bytes) (values : Values)
    → All (λ c. is_space c ≡ true) gap
    → skip_char b',' (skip_ws (separated final gap values (written_entries final gap values)))
      ≡ written_entries final gap values
unfolding separated written_entries skip_ws skip_char
behind_separated true gap [] h = rw (skip_ws-gap gap (b',' ∷ b'}' ∷ []) h) refl
behind_separated false gap [] h = rw (skip_ws-gap gap (b'}' ∷ []) h) refl
behind_separated final gap (x ∷ values) h =
    rw (skip_ws-gap gap (b',' ∷ written_entries final gap (x ∷ values)) h) refl

separated-length :
    (final : Bool) (gap : Bytes) (values : Values) (rest : Bytes)
    → length rest ≤ length (separated final gap values rest)
unfolding separated
separated-length true gap [] rest = let a = length-append gap (b',' ∷ rest) in omega arith
separated-length false gap [] rest = let a = length-append gap rest in omega arith
separated-length final gap (x ∷ values) rest =
    let a = length-append gap (b',' ∷ rest) in omega arith

after_key-written :
    (gap value rest : Bytes)
    → All (λ c. is_space c ≡ true) gap
    → 0 < length rest
    → after_key (gap ++ (b':' ∷ (gap ++ (b'"' ∷ (escape value ++ (b'"' ∷ rest))))))
      ≡ (value, skip_char b',' (skip_ws rest))
unfolding after_key value_at skip_ws skip_char
after_key-written gap value rest h l =
    let t : Bytes = b'"' ∷ (escape value ++ (b'"' ∷ rest)) in
    rw
      (skip_ws-gap gap (b':' ∷ (gap ++ t)) h, skip_ws-gap gap t h, quoted_value-append value rest l)
      refl

entry-written :
    (gap key value rest : Bytes)
    → All (λ c. (c == b'"') ≡ false) key
    → All (λ c. is_space c ≡ true) gap
    → 0 < length rest
    → entry (written_entry gap key value rest) ≡ (key, value, skip_char b',' (skip_ws rest))
unfolding entry key_at written_entry
entry-written gap key value rest h b l =
    rw (quoted_key-append key _ h, after_key-written gap value rest b l) refl

store-key :
    (key value : Bytes) (out : Values)
    → is_empty key ≡ false
    → store key value out ≡ put_value key (trim value) out
unfolding store
store-key key value out h = rw h refl

written_entry-length :
    (gap key value rest : Bytes) → length rest < length (written_entry gap key value rest)
unfolding written_entry
written_entry-length gap key value rest =
    let behind_colon = b'"' ∷ (escape value ++ (b'"' ∷ rest)) in
    let a = length-append key (b'"' ∷ (gap ++ (b':' ∷ (gap ++ behind_colon)))) in
    let b = length-append gap (b':' ∷ (gap ++ behind_colon)) in
    let c = length-append gap behind_colon in
    let d = length-append (escape value) (b'"' ∷ rest) in omega arith

written_entries-some :
    (final : Bool) (gap : Bytes) (values : Values) → 0 < length (written_entries final gap values)
unfolding written_entries
written_entries-some final gap [] = omega arith
written_entries-some final gap ((key, value) ∷ values) =
    let rest = separated final gap values (written_entries final gap values) in
    let a = length-append gap (written_entry gap key value rest) in
    let b = written_entry-length gap key value rest in omega arith

entries-at :
    (fuel c : ℕ) (s rest key value next : Bytes) (out : Values)
    → skip_ws s ≡ c ∷ rest
    → (c == b'}') ≡ false
    → entry (c ∷ rest) ≡ (key, value, next)
    → parse_entries (suc fuel) s out ≡ parse_entries fuel next (store key value out)
unfolding parse_entries
entries-at fuel c s rest key value next out e b h = rw (parse_entries, e, b, h) refl

skip_ws-quote : (s : Bytes) → skip_ws (b'"' ∷ s) ≡ b'"' ∷ s
unfolding skip_ws skip_from
skip_ws-quote s = refl

entries-step :
    (fuel : ℕ) (final : Bool) (gap key value : Bytes) (values out : Values)
    → IsKey (key, value)
    → All (λ c. is_space c ≡ true) gap
    → parse_entries (suc fuel) (written_entries final gap ((key, value) ∷ values)) out
      ≡ parse_entries fuel (written_entries final gap values) (put_value key (trim value) out)
unfolding written_entries written_entry IsKey
entries-step fuel final gap key value values out h b =
    let rest = separated final gap values (written_entries final gap values) in
    let m = separated-length final gap values (written_entries final gap values) in
    let n = written_entries-some final gap values in
    let read : entry (written_entry gap key value rest)
        ≡ (key, value, written_entries final gap values) =
      entry-written gap key value rest h.1 b (omega arith)
      ∙ ap (λ x. (key, value, x)) (behind_separated final gap values b) in
    entries-at fuel b'"' _ _ key value (written_entries final gap values) out
      (skip_ws-gap gap (written_entry gap key value rest) b ∙ skip_ws-quote _) refl read
    ∙ ap (parse_entries fuel (written_entries final gap values)) (store-key key value out h.0)

entries-written :
    (fuel : ℕ) (final : Bool) (gap : Bytes) (values out : Values)
    → length (written_entries final gap values) < fuel
    → All IsKey values
    → All (λ c. is_space c ≡ true) gap
    → parse_entries fuel (written_entries final gap values) out ≡ assigned values out
unfolding written_entries assigned
entries-written zero final gap values out l h b = absurd (omega arith)
entries-written (suc fuel) final gap [] out l h b = unfold parse_entries skip_ws in refl
entries-written (suc fuel) final gap ((key, value) ∷ values) out l h b =
    let rest = written_entries final gap values in
    let m = separated-length final gap values rest in
    let n = written_entry-length gap key value (separated final gap values rest) in
    let k = length-append gap (written_entry gap key value (separated final gap values rest)) in
    entries-step fuel final gap key value values out h.0 b
    ∙ entries-written fuel final gap values (put_value key (trim value) out) (omega arith) h.1 b

-- A configuration written as one object, with nonempty keys without quotes in quotes, values in
-- quotes in which quotes and backslashes are escaped, a comma between two entries, with or without
-- one behind the last, and the same blanks, or none, in front of keys, colons, values, commas and
-- behind the last value, is parsed to the assignments of these values, trimmed, in their order.
pub parse_config-written :
    (final : Bool) (gap : Bytes) (values : Values)
    → All (λ c. is_space c ≡ true) gap
    → All IsKey values
    → parse_config (some (written final gap values)) ≡ assigned values []
unfolding parse_config skip_ws written
parse_config-written final gap values b h =
    entries-written (suc (length (written_entries final gap values))) final gap values []
      (omega arith) h b
