-- ===== src/Proxy/Lines.antt =====
-- How lines and words of a head are read back, for `parseRequestHead`.
use github_codespaces_proxy.Base.{
  ℕ, suc, ◌+◌, ◌≡◌, refl, ap, ◌∙◌, Bool, true, false, none, some, List, [], ◌∷◌, ◌++◌, arith, ◌==◌,
  inl, inr, Bytes, All, All-map, Bool-cases, Option-cases, is_space, find_char, take, drop, length,
  if◌then◌else◌,
}
use github_codespaces_proxy.Base
use github_codespaces_proxy.Util.{trim, trim_front, trim_back}
use github_codespaces_proxy.Proxy.Head.{
  cons_line, cons_first, split_lines, chop, get_word, drop_blanks, next_word,
}

-- No line feed, no blank, and no colon.
unfoldable pub IsLine : Bytes → Type 0
IsLine s = All (λ c. (c == 10) ≡ false) s

unfoldable pub IsWord : Bytes → Type 0
IsWord s = All (λ c. is_space c ≡ false) s

unfoldable pub IsName : Bytes → Type 0
IsName s = All (λ c. (c == b':') ≡ false) s

pub IsWord-IsLine : (s : Bytes) → IsWord s → IsLine s
unfolding IsWord IsLine is_space
IsWord-IsLine s h = All-map (λ c e. ground arith) s h

module _ {κ} (P : ℕ → Type κ) where
  pub All-take : (n : ℕ) (s : Bytes) → All P s → All P (take n s)
  All-take Base.zero s h = tt
  All-take (suc n) [] h = tt
  All-take (suc n) (c ∷ cs) h = (h.0, All-take n cs h.1)

  pub All-drop : (n : ℕ) (s : Bytes) → All P s → All P (drop n s)
  All-drop Base.zero s h = h
  All-drop (suc n) [] h = tt
  All-drop (suc n) (c ∷ cs) h = All-drop n cs h.1

  All-if : (b : Bool) (s t : Bytes) → All P s → All P t → All P (if b then s else t)
  All-if true s t h k = h
  All-if false s t h k = k

  All-trim_front : (s : Bytes) → All P s → All P (trim_front s)
  unfolding trim_front
  All-trim_front [] h = tt
  All-trim_front (c ∷ cs) h = All-if (is_space c) _ _ (All-trim_front cs h.1) h

  back-All :
      (c : ℕ) (t : Bytes)
      → P c
      → All P t
      → All P (elim t [ [] ↦ if is_space c then [] else c ∷ [] | (d ∷ ds) ↦ c ∷ d ∷ ds ])
  back-All c [] h k = All-if (is_space c) _ _ tt (h, tt)
  back-All c (d ∷ ds) h k = (h, k)

  All-trim_back : (s : Bytes) → All P s → All P (trim_back s)
  unfolding trim_back
  All-trim_back [] h = tt
  All-trim_back (c ∷ cs) h = back-All c (trim_back cs) h.0 (All-trim_back cs h.1)

  pub All-trim : (s : Bytes) → All P s → All P (trim s)
  unfolding trim
  All-trim s h = All-trim_back (trim_front s) (All-trim_front s h)

pub split_lines-append :
    (x s l : Bytes) (ls : List Bytes)
    → IsLine x
    → split_lines s ≡ l ∷ ls
    → split_lines (x ++ s) ≡ (x ++ l) ∷ ls
unfolding split_lines IsLine cons_first
split_lines-append [] s l ls h e = e
split_lines-append (c ∷ x) s l ls h e =
    rw (split_lines, h.0, split_lines-append x s l ls h.1 e) refl

pub chop-append : (x : Bytes) (c : ℕ) (s : Bytes) → chop (x ++ c ∷ s) ≡ x ++ chop (c ∷ s)
unfolding chop
chop-append [] c s = refl
chop-append (d ∷ []) c s = refl
chop-append (d ∷ e ∷ x) c s = ap (◌∷◌ d) (chop-append (e ∷ x) c s)

get_word-append :
    (w : Bytes) (c : ℕ) (s : Bytes)
    → IsWord w
    → is_space c ≡ true
    → get_word (w ++ c ∷ s) ≡ (w, c ∷ s)
unfolding get_word IsWord cons_line
get_word-append [] c s h e = rw (get_word, e) refl
get_word-append (d ∷ w) c s h e = rw (get_word, h.0, get_word-append w c s h.1 e) refl

pub next_word-append :
    (d : ℕ) (w : Bytes) (c : ℕ) (s : Bytes)
    → IsWord (d ∷ w)
    → is_space c ≡ true
    → next_word (d ∷ w ++ c ∷ s) ≡ (d ∷ w, c ∷ s)
unfolding next_word drop_blanks IsWord
next_word-append d w c s h e = rw (drop_blanks, h.0) (get_word-append (d ∷ w) c s h e)
