-- ===== src/Server/Counts.antt =====
-- `incIp`, `decIp` and `ipCount` of src/server/main.cpp, each of them one step under its lock. The map
-- is a list of its entries.
pub mod Tally
use github_codespaces_proxy.Base.{
  ℕ, suc, ◌+◌, ◌-◌, ◌<◌, ◌≡◌, refl, ap, ◌∙◌, Bool, true, false, List, [], ◌∷◌, inl, inr, arith, ltb,
  leb, Bytes, All, Bool-cases, text_eq, text_eq→eq, text_eq_self, if◌then◌else◌,
}

abbrev pub Counts : Type 0
Counts = List (Bytes × ℕ)

unfoldable pub ip_count : Counts → Bytes → ℕ
unfolding text_eq
ip_count [] ip = 0
ip_count ((key, n) ∷ counts) ip = if text_eq key ip then n else ip_count counts ip

-- `++g_perIpCount[ip]`; a missing entry starts at 0.
unfoldable pub inc_ip : Bytes → Counts → Counts
unfolding text_eq
inc_ip ip [] = (ip, 1) ∷ []
inc_ip ip ((key, n) ∷ counts) =
    let rest = inc_ip ip counts in if text_eq key ip then (key, n + 1) ∷ counts else (key, n) ∷ rest

-- An entry that comes down to 0 goes.
unfoldable pub dec_ip : Bytes → Counts → Counts
unfolding text_eq
dec_ip ip [] = []
dec_ip ip ((key, n) ∷ counts) =
    let rest = dec_ip ip counts in
    if text_eq key ip then (if leb n 1 then counts else (key, n - 1) ∷ counts) else (key, n) ∷ rest

-- A connection counts from its admission to its close, whatever other addresses do in between.
pub data CountStep : Type 0 where
  admitted released : Bytes → CountStep

unfoldable pub count_step : CountStep → Counts → Counts
unfolding inc_ip dec_ip
count_step (admitted ip) counts = inc_ip ip counts
count_step (released ip) counts = dec_ip ip counts

unfoldable pub count_steps : List CountStep → Counts → Counts
unfolding count_step
count_steps [] counts = counts
count_steps (s ∷ steps) counts = count_steps steps (count_step s counts)
