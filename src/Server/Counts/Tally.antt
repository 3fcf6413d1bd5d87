-- ===== src/Server/Counts/Tally.antt =====
-- The count of connections as a function of the address.
use mathlib.Core.Path.{fun_ext}
use github_codespaces_proxy.Base.{
  ℕ, ◌+◌, ◌-◌, ◌<◌, ◌≡◌, refl, sym, ap, ◌∙◌, subst, Bool, true, false, List, [], ◌∷◌, inl, inr,
  arith, leb, Bytes, Bool-cases, text_eq, text_eq→eq, text_eq_self, if◌then◌else◌,
}
use github_codespaces_proxy.Server.Counts.{
  Counts, ip_count, inc_ip, dec_ip, CountStep, admitted, released, count_step, count_steps,
}

abbrev pub Tally : Type 0
Tally = Bytes → ℕ

-- What a step does to the count of each address.
unfoldable pub tally_step : CountStep → Tally → Tally
tally_step (admitted ip) f = λ k. if text_eq ip k then f k + 1 else f k
tally_step (released ip) f = λ k. if text_eq ip k then f k - 1 else f k

unfoldable pub tally_steps : List CountStep → Tally → Tally
tally_steps [] f = f
tally_steps (s ∷ steps) f = tally_steps steps (tally_step s f)

-- Every entry counts something, and no address has two.
unfoldable pub IsTally : Counts → Type 0
IsTally [] = Unit
IsTally ((key, n) ∷ counts) = (0 < n) × (ip_count counts key ≡ 0) × IsTally counts

text_eq-false : (a b c : Bytes) → text_eq a b ≡ true → text_eq a c ≡ text_eq b c
text_eq-false a b c h = ap (λ z. text_eq z c) (text_eq→eq a b h)

text_eq-both : (a b c : Bytes) → text_eq a c ≡ true → text_eq b c ≡ true → text_eq a b ≡ true
text_eq-both a b c h k =
    subst (λ z. text_eq a z ≡ true) (text_eq→eq a c h ∙ sym (text_eq→eq b c k)) (text_eq_self a)
    ∙ refl

text_eq-flip : (a b : Bytes) → text_eq a b ≡ false → text_eq b a ≡ false
text_eq-flip a b h = elim (Bool-cases (text_eq b a)) [
  | inl e ↦ absurd (ground (arith, h, text_eq-both a b a (text_eq_self a) e))
  | inr e ↦ e
]

inc-count :
    (ip k : Bytes) (counts : Counts)
    → ip_count (inc_ip ip counts) k
      ≡ (if text_eq ip k then ip_count counts k + 1 else ip_count counts k)
unfolding ip_count inc_ip
inc-count ip k [] = refl
inc-count ip k ((key, n) ∷ counts) = elim (Bool-cases (text_eq key ip)) [
  | inl e ↦ rw (e, text_eq-false key ip k e) (ground arith)
  | inr e ↦ let both = text_eq-both key ip k in rw (e, inc-count ip k counts) (ground (arith, e))
]

dec-count :
    (ip k : Bytes) (counts : Counts)
    → IsTally counts
    → ip_count (dec_ip ip counts) k
      ≡ (if text_eq ip k then ip_count counts k - 1 else ip_count counts k)
unfolding ip_count dec_ip IsTally
dec-count ip k [] h = ground arith
dec-count ip k ((key, n) ∷ counts) h = elim (Bool-cases (text_eq key ip)) [
  | inl e ↦
      let gone : text_eq ip k ≡ true → ip_count counts k ≡ 0 =
        λ q. ap (ip_count counts) (sym (text_eq→eq ip k q) ∙ sym (text_eq→eq key ip e)) ∙ h.1 in
      let same = text_eq-false key ip k e in
      elim (Bool-cases (text_eq ip k)) [
        | inl q ↦ let g = gone q in let r = same ∙ q in ground arith
        | inr q ↦ let r = same ∙ q in ground arith
      ]
  | inr e ↦
      let both = text_eq-both key ip k in rw (e, dec-count ip k counts h.2) (ground (arith, e))
]

IsTally-if :
    (b : Bool) (x y : Counts)
    → (b ≡ true → IsTally x)
    → (b ≡ false → IsTally y)
    → IsTally (if b then x else y)
IsTally-if true x y h k = h refl
IsTally-if false x y h k = k refl

inc_ip-IsTally : (ip : Bytes) (counts : Counts) → IsTally counts → IsTally (inc_ip ip counts)
unfolding inc_ip IsTally ip_count
inc_ip-IsTally ip [] h = (omega arith, refl, tt)
inc_ip-IsTally ip ((key, n) ∷ counts) h =
    IsTally-if (text_eq key ip) _ _ (λ e. (omega arith, h.1, h.2))
      (λ e. (
        h.0,
        inc-count ip key counts ∙ rw (text_eq-flip key ip e) h.1,
        inc_ip-IsTally ip counts h.2,
      ))

dec_ip-IsTally : (ip : Bytes) (counts : Counts) → IsTally counts → IsTally (dec_ip ip counts)
unfolding dec_ip IsTally ip_count
dec_ip-IsTally ip [] h = h
dec_ip-IsTally ip ((key, n) ∷ counts) h =
    IsTally-if (text_eq key ip) _ _
      (λ e. IsTally-if (leb n 1) _ _ (λ l. h.2) (λ l. (ground arith, h.1, h.2)))
      (λ e. (
        h.0,
        dec-count ip key counts h.2 ∙ rw (text_eq-flip key ip e) h.1,
        dec_ip-IsTally ip counts h.2,
      ))

count_step-tally_step :
    (s : CountStep) (counts : Counts)
    → IsTally counts
    → (ip_count (count_step s counts) ≡ tally_step s (ip_count counts))
      × IsTally (count_step s counts)
unfolding count_step tally_step
count_step-tally_step (admitted ip) counts h =
    (fun_ext (λ k. inc-count ip k counts), inc_ip-IsTally ip counts h)
count_step-tally_step (released ip) counts h =
    (fun_ext (λ k. dec-count ip k counts h), dec_ip-IsTally ip counts h)

count_steps-IsTally_from :
    (steps : List CountStep) (counts : Counts)
    → IsTally counts
    → (ip_count (count_steps steps counts) ≡ tally_steps steps (ip_count counts))
      × IsTally (count_steps steps counts)
unfolding count_steps tally_steps
count_steps-IsTally_from [] counts h = (refl, h)
count_steps-IsTally_from (s ∷ steps) counts h =
    let one = count_step-tally_step s counts h in
    let more = count_steps-IsTally_from steps (count_step s counts) one.1 in
    (more.0 ∙ ap (tally_steps steps) one.0, more.1)

-- After any sequence of admissions and releases of addresses, the map of counts is, as a function
-- of the address, what the same steps make of a function that is 0 everywhere, an admission adding
-- one at its address and a release taking one away down to 0; every entry of the map is positive,
-- and no address has two.
pub count_steps-IsTally :
    (steps : List CountStep)
    → (ip_count (count_steps steps []) ≡ tally_steps steps (λ ip. 0))
      × IsTally (count_steps steps [])
unfolding ip_count IsTally
count_steps-IsTally steps = count_steps-IsTally_from steps [] tt
