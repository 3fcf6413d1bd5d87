-- ===== src/Util/Trim.antt =====
-- That `trim` leaves a trimmed text as it is.
use github_codespaces_proxy.Base.{
  ℕ, ◌≡◌, refl, ap, ◌∙◌, false, inl, inr, [], ◌∷◌, if◌then◌else◌, Bytes, All, Bool-cases, is_space,
}
use github_codespaces_proxy.Util.{trim, trim_front, trim_back}

back_again :
    (c : ℕ) (t : Bytes)
    → trim_back t ≡ t
    → let r : Bytes = elim t [ [] ↦ if is_space c then [] else c ∷ [] | (d ∷ ds) ↦ c ∷ d ∷ ds ] in
      trim_back r ≡ r
unfolding trim_back
back_again c [] h = elim (Bool-cases (is_space c)) [
  | inl e ↦ rw e refl
  | inr e ↦ rw (e, trim_back, e) refl
]
back_again c (d ∷ ds) h = rw (trim_back, h) refl

trim_back-trim_back : (s : Bytes) → trim_back (trim_back s) ≡ trim_back s
unfolding trim_back
trim_back-trim_back [] = refl
trim_back-trim_back (c ∷ cs) = back_again c (trim_back cs) (trim_back-trim_back cs)

front_kept :
    (c : ℕ) (t : Bytes)
    → is_space c ≡ false
    → let r : Bytes = elim t [ [] ↦ if is_space c then [] else c ∷ [] | (d ∷ ds) ↦ c ∷ d ∷ ds ] in
      trim_front r ≡ r
unfolding trim_front
front_kept c [] e = rw (e, trim_front, e) refl
front_kept c (d ∷ ds) e = rw (trim_front, e) refl

front_back : (s : Bytes) → trim_front (trim_back (trim_front s)) ≡ trim_back (trim_front s)
unfolding trim_front trim_back
front_back [] = refl
front_back (c ∷ cs) = elim (Bool-cases (is_space c)) [
  | inl e ↦ rw e (front_back cs)
  | inr e ↦ rw e (front_kept c (trim_back cs) e)
]

pub trim-trim : (s : Bytes) → trim (trim s) ≡ trim s
unfolding trim
trim-trim s = ap trim_back (front_back s) ∙ trim_back-trim_back (trim_front s)

-- A text without blanks.
pub trim_front-word : (s : Bytes) → All (λ c. is_space c ≡ false) s → trim_front s ≡ s
unfolding trim_front
trim_front-word [] h = refl
trim_front-word (c ∷ cs) h = rw (trim_front, h.0) refl

back_word :
    (c : ℕ) (t : Bytes)
    → is_space c ≡ false
    → elim t [ [] ↦ if is_space c then [] else c ∷ [] | (d ∷ ds) ↦ c ∷ d ∷ ds ] ≡ c ∷ t
back_word c [] e = rw e refl
back_word c (d ∷ ds) e = refl

trim_back-word : (s : Bytes) → All (λ c. is_space c ≡ false) s → trim_back s ≡ s
unfolding trim_back
trim_back-word [] h = refl
trim_back-word (c ∷ cs) h = back_word c (trim_back cs) h.0 ∙ ap (◌∷◌ c) (trim_back-word cs h.1)

pub trim-word : (s : Bytes) → All (λ c. is_space c ≡ false) s → trim s ≡ s
unfolding trim
trim-word s h = ap trim_back (trim_front-word s h) ∙ trim_back-word s h
