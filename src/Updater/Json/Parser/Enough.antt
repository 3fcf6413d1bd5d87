-- ===== src/Updater/Json/Parser/Enough.antt =====
-- The rounds of `jsonParse`.
use github_codespaces_proxy.Base.{
  ℕ, zero, suc, ◌+◌, ◌*◌, ◌≤◌, ◌<◌, ◌≡◌, refl, ap, Bool, true, false, Option, none, some, [], ◌∷◌,
  arith, ◌==◌, if◌then◌else◌, Bytes, length,
}
use github_codespaces_proxy.Client.Url.{skip_blanks}
use github_codespaces_proxy.Updater.Json.{obj, arr, JVals, no_vals, Members, no_members, put_member}
use github_codespaces_proxy.Updater.Json.Parser.{
  separator, key_colon, unless_closed, as_val, push_val, value_at, parse_val, json_parse,
  parse_members, parse_elements,
}
use github_codespaces_proxy.Updater.Json.Parser.Left.{
  IsWithin, fails, leaves, skip_blanks-length, IsShorter, fails_too, takes, separator-IsShorter,
  key_colon-IsShorter,
}
use github_codespaces_proxy.Updater.Json.Parser.Rounds.{parse_val-IsWithin}

if_same {ℓ} :
    {A : Type ℓ} (b : Bool) (x y u v : A)
    → x ≡ u
    → y ≡ v
    → (if b then x else y) ≡ (if b then u else v)
if_same true x y u v h k = h
if_same false x y u v h k = k

closed_same {ℓ} :
    {A : Type ℓ} (n close : ℕ) (empty : A) (more other : Bytes → Option (A × Bytes)) (t : Bytes)
    → ((u : Bytes) → length u ≤ n → more u ≡ other u)
    → length t ≤ n
    → let x : Option (A × Bytes) = elim t [
      | [] ↦ more []
      | (c ∷ rest) ↦ if c == close then some (empty, rest) else more (c ∷ rest)
    ] in
      let y : Option (A × Bytes) = elim t [
        | [] ↦ other []
        | (c ∷ rest) ↦ if c == close then some (empty, rest) else other (c ∷ rest)
      ] in
      x ≡ y
closed_same n close empty more other [] k h = k [] h
closed_same n close empty more other (c ∷ rest) k h =
    if_same (c == close) _ _ _ _ refl (k (c ∷ rest) h)

unless_closed_same {ℓ} :
    {A : Type ℓ} (close : ℕ) (empty : A) (more other : Bytes → Option (A × Bytes)) (s : Bytes)
    → ((u : Bytes) → length u ≤ length s → more u ≡ other u)
    → unless_closed close empty more s ≡ unless_closed close empty other s
unfolding unless_closed
unless_closed_same close empty more other s k =
    closed_same (length s) close empty more other (skip_blanks s) k (skip_blanks-length s)

value_at_same :
    (members others : Bytes → Option (Members × Bytes))
    (elements vals : Bytes → Option (JVals × Bytes)) (s : Bytes)
    → ((u : Bytes) → length u < length s → members u ≡ others u)
    → ((u : Bytes) → length u < length s → elements u ≡ vals u)
    → value_at members elements s ≡ value_at others vals s
unfolding value_at
value_at_same members others elements vals [] h k = refl
value_at_same members others elements vals (c ∷ s) h k =
    if_same (c == b'{') _ _ _ _
      (ap (as_val obj)
        (unless_closed_same b'}' no_members members others s (λ u l. h u (omega arith))))
      (if_same (c == b'[') _ _ _ _
        (ap (as_val arr)
          (unless_closed_same b']' no_vals elements vals s (λ u l. k u (omega arith))))
        refl)

short_same {ℓ κ} :
    {A : Type ℓ} {B : Type κ} (m : ℕ) (o : Option (A × Bytes))
    (k l : A → Bytes → Option (B × Bytes))
    → IsShorter m o
    → ((a : A) (rest : Bytes) → length rest < m → k a rest ≡ l a rest)
    → let x : Option (B × Bytes) = elim o [ none ↦ none | some (a, rest) ↦ k a rest ] in
      let y : Option (B × Bytes) = elim o [ none ↦ none | some (a, rest) ↦ l a rest ] in x ≡ y
short_same m _ k l fails_too h = refl
short_same m _ k l (takes a rest p) h = h a rest p

bind_same {ℓ κ} :
    {A : Type ℓ} {B : Type κ} (m : ℕ) (o q : Option (A × Bytes))
    (k l : A → Bytes → Option (B × Bytes))
    → o ≡ q
    → IsWithin m q
    → ((a : A) (rest : Bytes) → length rest ≤ m → k a rest ≡ l a rest)
    → let x : Option (B × Bytes) = elim o [ none ↦ none | some (a, rest) ↦ k a rest ] in
      let y : Option (B × Bytes) = elim q [ none ↦ none | some (a, rest) ↦ l a rest ] in x ≡ y
bind_same m o _ k l e fails h = rw e refl
bind_same m o _ k l e (leaves a rest p) h = rw e (h a rest p)

more_same {ℓ} :
    {A : Type ℓ} (more : Bool) (x y u : A)
    → x ≡ y
    → let a : A = elim more [ true ↦ x | false ↦ u ] in
      let b : A = elim more [ true ↦ y | false ↦ u ] in a ≡ b
more_same true x y u h = h
more_same false x y u h = refl

mutual
  unfolding parse_val parse_members parse_elements

  parse_val_fuel :
      (spent : Option Bytes) (f g : ℕ) (s : Bytes)
      → 2 * length s < f
      → 2 * length s < g
      → parse_val spent f s ≡ parse_val none g s
  parse_val_fuel spent zero g s l m = absurd (omega arith)
  parse_val_fuel spent (suc f) zero s l m = absurd (omega arith)
  parse_val_fuel spent (suc f) (suc g) s l m =
      let b = skip_blanks-length s in
      value_at_same (parse_members spent f no_members) (parse_members none g no_members)
        (parse_elements spent f no_vals) (parse_elements none g no_vals) (skip_blanks s)
        (λ u n. parse_members_fuel spent f g no_members u (omega arith) (omega arith))
        (λ u n. parse_elements_fuel spent f g no_vals u (omega arith) (omega arith))

  parse_members_fuel :
      (spent : Option Bytes) (f g : ℕ) (o : Members) (s : Bytes)
      → 2 * length s + 1 < f
      → 2 * length s + 1 < g
      → parse_members spent f o s ≡ parse_members none g o s
  parse_members_fuel spent zero g o s l m = absurd (omega arith)
  parse_members_fuel spent (suc f) zero o s l m = absurd (omega arith)
  parse_members_fuel spent (suc f) (suc g) o s l m =
      short_same (length s) (key_colon s) _ _ (key_colon-IsShorter s) (λ key rest n.
        bind_same (length rest) (parse_val spent f rest) (parse_val none g rest) _ _
          (parse_val_fuel spent f g rest (omega arith) (omega arith)) (parse_val-IsWithin g rest)
          (λ val behind p.
            short_same (length behind) (separator b'}' behind) _ _ (separator-IsShorter b'}' behind)
              (λ more left q. more_same more _ _ _ (
                parse_members_fuel spent f g (put_member key val o) left (omega arith)
                  (omega arith)))))

  parse_elements_fuel :
      (spent : Option Bytes) (f g : ℕ) (a : JVals) (s : Bytes)
      → 2 * length s + 1 < f
      → 2 * length s + 1 < g
      → parse_elements spent f a s ≡ parse_elements none g a s
  parse_elements_fuel spent zero g a s l m = absurd (omega arith)
  parse_elements_fuel spent (suc f) zero a s l m = absurd (omega arith)
  parse_elements_fuel spent (suc f) (suc g) a s l m =
      bind_same (length s) (parse_val spent f s) (parse_val none g s) _ _
        (parse_val_fuel spent f g s (omega arith) (omega arith)) (parse_val-IsWithin g s)
        (λ val behind p.
          short_same (length behind) (separator b']' behind) _ _ (separator-IsShorter b']' behind)
            (λ more left q.
              more_same more _ _ _
                (parse_elements_fuel spent f g (push_val val a) left (omega arith) (omega arith))))

-- With any number of rounds above twice the length of the text, the parser of JSON values, members
-- and elements gives the result of jsonParse, whatever a call that has no rounds left returns: a
-- failure, or a value with any text behind it.
pub json_parse_rounds :
    (spent : Option Bytes) (f : ℕ) (s : Bytes)
    → 2 * length s < f
    → json_parse s ≡ elim (parse_val spent f s) [ none ↦ none | some (v, rest) ↦ some v ]
unfolding json_parse
json_parse_rounds spent f s l =
    rw (parse_val_fuel spent f (2 * length s + 2) s l (omega arith)) refl
