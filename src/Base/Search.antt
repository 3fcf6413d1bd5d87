-- ===== src/Base/Search.antt =====
-- Where `find` finds a text, and in what begins with the text that was searched.
use Prim.Native.Nat.{ℕ, zero, suc, ◌+◌, ◌≤◌}
use mathlib.Core.Path.{◌≡◌, refl, ap, sym, ◌∙◌}
use mathlib.Core.Bool.{Bool, true, false, ◌&&◌}
use mathlib.Core.Option.{Option, none, some}
use mathlib.Core.Option
use mathlib.Core.Logic.{inl, inr}
use mathlib.Core.List.{[], ◌∷◌, ◌++◌}
use native.Mathlib.Omega.{arith}
use github_codespaces_proxy.Base.Tests.{◌==◌, if◌then◌else◌, Bool-cases}
use github_codespaces_proxy.Base.Lists.{length, take, drop, take-append-drop}
use github_codespaces_proxy.Base.Text.{Bytes}
use github_codespaces_proxy.Base.Strings.{find, starts_with, is_empty}

starts_with-append : (p xs ys : Bytes) → starts_with p xs ≡ true → starts_with p (xs ++ ys) ≡ true
unfolding starts_with
starts_with-append [] xs ys h = refl
starts_with-append (a ∷ p) [] ys h = absurd (ground arith)
starts_with-append (a ∷ p) (x ∷ xs) ys h = ground (arith, starts_with-append p xs ys)

starts_with-length : (p xs : Bytes) → starts_with p xs ≡ true → length p ≤ length xs
unfolding starts_with
starts_with-length [] xs h = omega arith
starts_with-length (a ∷ p) [] h = absurd (ground arith)
starts_with-length (a ∷ p) (x ∷ xs) h = ground (arith, starts_with-length p xs)

-- The place of a text is the first, or behind it.
data IsFound (here : Bool) (later : Option ℕ) (i : ℕ) : Type 0 where
  found_here : here ≡ true → i ≡ 0 → IsFound here later i
  found_later : (j : ℕ) → here ≡ false → later ≡ some j → i ≡ suc j → IsFound here later i

found :
    (here : Bool) (later : Option ℕ) (i : ℕ)
    → (if here then some 0 else Option.map suc later) ≡ some i
    → IsFound here later i
found true later i h = found_here refl (ground arith)
found false none i h = absurd (ground arith)
found false (some j) i h = found_later j refl refl (ground arith)

-- The place is in range.
pub find-bound : (p xs : Bytes) (i : ℕ) → find p xs ≡ some i → i + length p ≤ length xs
unfolding find is_empty
find-bound [] [] i h = ground arith
find-bound (a ∷ p) [] i h = absurd (ground arith)
find-bound p (x ∷ xs) i h = elim (found (starts_with p (x ∷ xs)) (find p xs) i h) [
  | found_here e z ↦ let l = starts_with-length p (x ∷ xs) e in ground arith
  | found_later j e f z ↦ let l = find-bound p xs j f in ground arith
]

starts_with-within :
    (p s ys : Bytes) → length p ≤ length s → starts_with p (s ++ ys) ≡ starts_with p s
unfolding starts_with
starts_with-within [] s ys h = refl
starts_with-within (a ∷ p) [] ys h = absurd (omega arith)
starts_with-within (a ∷ p) (x ∷ s) ys h =
    ap (λ b. a == x && b) (starts_with-within p s ys (omega arith))

find-empty : (ys : Bytes) → find [] ys ≡ some 0
unfolding find is_empty starts_with
find-empty [] = refl
find-empty (y ∷ ys) = refl

find-room :
    (p : Bytes) (x : ℕ) (xs : Bytes) (j : ℕ) → find p xs ≡ some j → length p ≤ length (x ∷ xs)
find-room p x xs j h = let l = find-bound p xs j h in omega arith

-- What is behind the first occurrence does not matter.
pub find-append : (p xs ys : Bytes) (i : ℕ) → find p xs ≡ some i → find p (xs ++ ys) ≡ some i
unfolding find is_empty
find-append [] [] ys i h = find-empty ys ∙ h
find-append (a ∷ p) [] ys i h = absurd (ground arith)
find-append p (x ∷ xs) ys i h = elim (found (starts_with p (x ∷ xs)) (find p xs) i h) [
  | found_here e z ↦ rw (find, starts_with-append p (x ∷ xs) ys e) (ground arith)
  | found_later j e f z ↦
      rw (find, starts_with-within p (x ∷ xs) ys (find-room p x xs j f), e, find-append p xs ys j f)
        (ground arith)
]

starts_with_self : (p ys : Bytes) → starts_with p (p ++ ys) ≡ true
unfolding starts_with
starts_with_self [] ys = refl
starts_with_self (a ∷ p) ys = ground (arith, starts_with_self p ys)

-- A text is found wherever it stands.
pub find-inside : (xs p ys : Bytes) → (i : ℕ) × (find p (xs ++ (p ++ ys)) ≡ some i)
unfolding find is_empty
find-inside [] [] ys = (0, find-empty ys)
find-inside [] (a ∷ p) ys = (0, rw (find, starts_with_self (a ∷ p) ys) refl)
find-inside (x ∷ xs) p ys = elim (Bool-cases (starts_with p (x ∷ (xs ++ (p ++ ys))))) [
  | inl e ↦ (0, rw (find, e) refl)
  | inr e ↦ let more = find-inside xs p ys in (suc more.0, rw (find, e, more.1) refl)
]

starts_with-take : (p s : Bytes) → starts_with p s ≡ true → starts_with p (take (length p) s) ≡ true
unfolding starts_with
starts_with-take [] s h = refl
starts_with-take (a ∷ p) [] h = h
starts_with-take (a ∷ p) (x ∷ s) h = ground (arith, starts_with-take p s)

find-first : (p s : Bytes) → starts_with p s ≡ true → find p s ≡ some 0
unfolding find starts_with is_empty
find-first [] [] h = refl
find-first (a ∷ p) [] h = absurd (ground arith)
find-first p (x ∷ s) h = rw (find, h) refl

find-here :
    (p s : Bytes) (i n : ℕ)
    → starts_with p s ≡ true
    → n ≡ length p
    → i ≡ 0
    → find p (take n s) ≡ some i
find-here p s i n b e z =
    ap (λ k. find p (take k s)) e
    ∙ find-first p (take (length p) s) (starts_with-take p s b)
    ∙ ap some (sym z)

-- The text up to the end of the first occurrence has it where the whole one has it.
pub find-take :
    (p s : Bytes) (i n : ℕ) → find p s ≡ some i → n ≡ i + length p → find p (take n s) ≡ some i
unfolding find is_empty
find-take p [] i n h e = take-nil n
  where
    take-nil : (n : ℕ) → find p (take n []) ≡ some i
    take-nil zero = h
    take-nil (suc n) = h
find-take p (x ∷ xs) i zero h e = elim (found (starts_with p (x ∷ xs)) (find p xs) i h) [
  | found_here b z ↦ find-here p (x ∷ xs) i zero b (omega arith) z
  | found_later j b f z ↦ absurd (omega arith)
]
find-take p (x ∷ xs) i (suc m) h e = elim (found (starts_with p (x ∷ xs)) (find p xs) i h) [
  | found_here b z ↦ find-here p (x ∷ xs) i (suc m) b (omega arith) z
  | found_later j b f z ↦
      let more = find-take p xs j m f (omega arith) in
      let room = find-room p x (take m xs) j more in
      let whole = starts_with-within p (x ∷ take m xs) (drop m xs) room in
      let same = ap (λ t. starts_with p (x ∷ t)) (take-append-drop m xs) in
      rw (find, sym whole ∙ same ∙ b, more) (ground arith)
]

-- A text that does not begin here is found further on.
pub find-later :
    (p : Bytes) (x : ℕ) (xs : Bytes) (n : ℕ)
    → starts_with p (x ∷ xs) ≡ false
    → find p xs ≡ some n
    → find p (x ∷ xs) ≡ some (suc n)
unfolding find
find-later p x xs n b h = rw (find, b, h) refl
