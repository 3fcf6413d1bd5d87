-- ===== src/Stream/Split.antt =====
-- `readUntil` does not depend on how the stream cuts what it reads.
use github_codespaces_proxy.Base.{
  ℕ, suc, ◌+◌, ◌<◌, ◌≤◌, ◌≡◌, refl, sym, ap, ◌∙◌, subst, Bool, true, false, Option, none, some, inl,
  inr, List, [], ◌∷◌, ◌++◌, append_assoc, append-nil, arith, ltb, Option-cases, Bytes, All, find,
  is_empty, starts_with, ◌==◌, ◌&&◌, drop, take, length, length-append, length-take, if◌then◌else◌,
}
use github_codespaces_proxy.Base.Search.{find-bound, find-append, find-later, find-take}
use github_codespaces_proxy.Stream.{read_until}

unfoldable pub concat : List Bytes → Bytes
concat [] = []
concat (chunk ∷ reads) = chunk ++ concat reads

take_all : (n : ℕ) (s : Bytes) → length s ≤ n → take n s ≡ s
take_all ℕ.zero [] h = refl
take_all ℕ.zero (c ∷ s) h = absurd (omega arith)
take_all (suc n) [] h = refl
take_all (suc n) (c ∷ s) h = ap (◌∷◌ c) (take_all n s (omega arith))

nothing_left :
    (reads : List Bytes) → All (λ c. 0 < length c) reads → length (concat reads) ≡ 0 → reads ≡ []
unfolding concat
nothing_left [] h e = refl
nothing_left (c ∷ reads) h e =
    let l = length-append c (concat reads) in let k = h.0 in absurd (omega arith)

whole : (s : Bytes) → length s ≡ 0 → s ≡ []
whole [] h = refl
whole (c ∷ s) h = absurd (omega arith)

found_whole :
    (delim more : Bytes) (reads : List Bytes) (at : ℕ)
    → find delim more ≡ some at
    → at + length delim ≡ length (more ++ concat reads)
    → All (λ c. 0 < length c) reads
    → (take (at + length delim) more ≡ more ++ concat reads) × (reads ≡ [])
found_whole delim more reads at h e k =
    let b = find-bound delim more at h in
    let l = length-append more (concat reads) in
    let z : length (concat reads) ≡ 0 = omega arith in
    (
      take_all _ more (omega arith)
          ∙ sym (ap (λ r. more ++ r) (whole (concat reads) z) ∙ append-nil more),
      nothing_left reads k z,
    )

module _ (delim text_ : Bytes) (max_bytes at : ℕ) where
  read_until-split_from :
      (read_ : Bytes) (reads : List Bytes)
      → find delim text_ ≡ some at
      → at + length delim ≡ length text_
      → length text_ ≤ max_bytes
      → find delim read_ ≡ none
      → All (λ c. 0 < length c) reads
      → read_ ++ concat reads ≡ text_
      → read_until delim max_bytes read_ reads ≡ some (text_, [])
  unfolding read_until concat
  read_until-split_from read_ [] f e m n k t =
      let same = ap (find delim) (sym (append-nil read_) ∙ t) in absurd (ground (arith, f, n))
  read_until-split_from read_ (c ∷ reads) f e m n k t =
      let more = read_ ++ c in
      let u : more ++ concat reads ≡ text_ = append_assoc read_ c (concat reads) ∙ t in
      let l : length read_ + length (c ++ concat reads) ≡ length text_ =
        sym (length-append read_ (c ++ concat reads)) ∙ ap length t in
      let l' = length-append c (concat reads) in
      let k' = k.0 in
      let below : ltb (length read_) max_bytes ≡ true = ground arith in
      elim (Option-cases (find delim more)) [
        | inl none_ ↦ rw (below, none_) (read_until-split_from more reads f e m none_ k.1 u)
        | inr (i, found_) ↦
            let same : i ≡ at = ground (
              arith,
              sym (find-append delim more (concat reads) i found_) ∙ ap (find delim) u ∙ f,
            ) in
            let w = found_whole delim more reads i found_ (ground (arith, ap length u, same)) k.1 in
            rw (below, found_, w.0, u, w.1) refl
      ]

pub read_until-split :
    (delim text_ : Bytes) (max_bytes at : ℕ) (reads : List Bytes)
    → 0 < length delim
    → find delim text_ ≡ some at
    → at + length delim ≡ length text_
    → length text_ ≤ max_bytes
    → All (λ c. 0 < length c) reads
    → concat reads ≡ text_
    → read_until delim max_bytes [] reads ≡ some (text_, [])
unfolding find is_empty
read_until-split [] text_ max_bytes at reads l f e m k t = absurd (omega arith)
read_until-split (d ∷ delim) text_ max_bytes at reads l f e m k t =
    read_until-split_from (d ∷ delim) text_ max_bytes at [] reads f e m refl k t

abbrev pub empty_line : Bytes
empty_line = 13 ∷ 10 ∷ 13 ∷ 10 ∷ []

-- A text that ends with the first empty line in it.
pub data IsEnded (s : Bytes) : Type 0 where
  is_ended : (n : ℕ) → find empty_line s ≡ some n → n + 4 ≡ length s → IsEnded s

unfoldable pub NoReturn : Bytes → Type 0
NoReturn s = All (λ c. (13 == c) ≡ false) s

pub append-IsEnded : (x s : Bytes) → NoReturn x → IsEnded s → IsEnded (x ++ s)
unfolding NoReturn starts_with
append-IsEnded [] s h k = k
append-IsEnded (c ∷ x) s h k = elim (append-IsEnded x s h.1 k) [
  | is_ended n f e ↦
      is_ended (suc n)
        (find-later empty_line c (x ++ s) n
          (ap (λ b. b && starts_with (drop 1 empty_line) (x ++ s)) h.0) f)
        (omega arith)
]

-- A line end with something behind it.
pub return-IsEnded :
    (c : ℕ) (s : Bytes) → (13 == c) ≡ false → IsEnded (c ∷ s) → IsEnded (13 ∷ 10 ∷ c ∷ s)
unfolding starts_with
return-IsEnded c s h (is_ended n f e) =
    is_ended (suc (suc n))
      (find-later empty_line 13 (10 ∷ c ∷ s) (suc n) (ap (λ b. b && starts_with (10 ∷ []) s) h)
        (find-later empty_line 10 (c ∷ s) n refl f))
      (omega arith)

pub empty_line-IsEnded : IsEnded empty_line
unfolding find
empty_line-IsEnded = is_ended 0 refl refl

-- What is read ends with the first delimiter in it.
pub data IsCut (delim buf : Bytes) : Type 0 where
  is_cut : (n : ℕ) → find delim buf ≡ some n → length buf ≤ n + length delim → IsCut delim buf

take-IsCut :
    (delim more : Bytes) (n : ℕ)
    → find delim more ≡ some n
    → IsCut delim (take (n + length delim) more)
take-IsCut delim more n f =
    is_cut n (find-take delim more n (n + length delim) f refl)
      (let l = length-take (n + length delim) more in omega arith)

option-IsCut :
    (delim more buf : Bytes) (reads rest : List Bytes) (o : Option ℕ)
    (later : Option (Bytes × List Bytes))
    → find delim more ≡ o
    → (later ≡ some (buf, rest) → IsCut delim buf)
    → elim o [ some at ↦ some (take (at + length delim) more, reads) | none ↦ later ]
      ≡ some (buf, rest)
    → IsCut delim buf
option-IsCut delim more buf reads rest none later f k h = k h
option-IsCut delim more buf reads rest (some n) later f k h =
    subst (IsCut delim) (ground (arith, h)) (take-IsCut delim more n f)

if-some :
    (b : Bool) (o : Option (Bytes × List Bytes)) (r : Bytes × List Bytes)
    → (if b then o else none) ≡ some r
    → o ≡ some r
if-some true o r h = h
if-some false o r h = absurd (ground arith)

pub read_until-IsCut :
    (delim : Bytes) (max_bytes : ℕ) (text_ buf : Bytes) (reads rest : List Bytes)
    → read_until delim max_bytes text_ reads ≡ some (buf, rest)
    → IsCut delim buf
unfolding read_until
read_until-IsCut delim max_bytes text_ buf [] rest h = absurd (ground arith)
read_until-IsCut delim max_bytes text_ buf (c ∷ reads) rest h =
    option-IsCut delim (text_ ++ c) buf reads rest (find delim (text_ ++ c)) _ refl
      (read_until-IsCut delim max_bytes (text_ ++ c) buf reads rest) (if-some _ _ _ h)
