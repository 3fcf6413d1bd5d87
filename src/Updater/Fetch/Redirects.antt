-- ===== src/Updater/Fetch/Redirects.antt =====
-- The redirects end.
use github_codespaces_proxy.Base.{
  ℕ, zero, suc, ◌+◌, ◌≤◌, ◌<◌, ◌≡◌, ◌≢◌, refl, Bool, true, false, Option, none, some, arith, not,
  leb, ◌==◌, if◌then◌else◌, Bytes, codes, is_empty,
}
use github_codespaces_proxy.Updater.Fetch.{
  HttpResp, Target, parse_url, next_url, is_redirect, Fetched, failed, out_of_fuel, after_request,
  fetch, https_get,
}

-- The result is there, after so many requests at most.
data IsDone (limit : ℕ) (r : Fetched × ℕ) : Type 0 where
  done : r.0 ≢ out_of_fuel → r.1 ≤ limit → IsDone limit r

IsDone-if :
    (limit : ℕ) (b : Bool) (x y : Fetched × ℕ)
    → (b ≡ true → IsDone limit x)
    → (b ≡ false → IsDone limit y)
    → IsDone limit (if b then x else y)
IsDone-if limit true x y h k = h refl
IsDone-if limit false x y h k = k refl

failed-IsDone : (limit : ℕ) (m : Bytes) → IsDone (suc limit) (failed m, 1)
failed-IsDone limit m = done (λ e. absurd (ground (arith, e))) (omega arith)

option-IsDone :
    (limit : ℕ) (o : Option Target) (k : Target → Fetched × ℕ)
    → ((t : Target) → IsDone (suc limit) (k t))
    → let r : Fetched × ℕ = elim o [ none ↦ (failed (codes "bad url"), 0) | some t ↦ k t ] in
      IsDone (suc limit) r
option-IsDone limit none k h = done (λ e. absurd (ground (arith, e))) (omega arith)
option-IsDone limit (some t) k h = h t

after-IsDone : (limit : ℕ) (r : Fetched × ℕ) → IsDone limit r → IsDone (suc limit) (after_request r)
after-IsDone limit (r, n) (done a b) = done a (omega arith)

fetch-IsDone :
    (request : Target → HttpResp) (fuel redirects : ℕ) (url : Bytes)
    → 5 < fuel + redirects
    → 0 < fuel
    → IsDone fuel (fetch request fuel redirects url)
unfolding fetch
fetch-IsDone request zero redirects url h l = absurd (omega arith)
fetch-IsDone request (suc fuel) redirects url h l = option-IsDone fuel (parse_url url) _ (λ t.
    IsDone-if (suc fuel) ((request t).status == 0) _ _
      (λ e. done (λ q. absurd (ground (arith, q))) (omega arith))
      (λ e.
        IsDone-if (suc fuel) (not (is_redirect (request t).status)) _ _
          (λ f. done (λ q. absurd (ground (arith, q))) (omega arith))
          (λ f.
            IsDone-if (suc fuel) (leb 5 redirects) _ _
              (λ g. failed-IsDone fuel (codes "too many redirects"))
              (λ g.
                IsDone-if (suc fuel) (is_empty (request t).location) _ _
                  (λ i. failed-IsDone fuel (codes "redirect without location"))
                  (λ i. after-IsDone fuel _ (
                    fetch-IsDone request fuel (redirects + 1) (next_url t (request t).location)
                      (omega arith) (ground arith)))))))

-- Whatever the servers answer, following redirects comes to a result within the given rounds,
-- after at most six requests.
pub https_get-done :
    (request : Target → HttpResp) (url : Bytes)
    → ((https_get request url).0 ≢ out_of_fuel) × ((https_get request url).1 ≤ 6)
unfolding https_get
https_get-done request url = elim (fetch-IsDone request 6 0 url (omega arith) (omega arith)) [
  | done a b ↦ (a, b)
]
