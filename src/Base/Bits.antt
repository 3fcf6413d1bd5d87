-- ===== src/Base/Bits.antt =====
-- Masks on one byte: tables of at most 256 entries, checked by evaluation.
use Prim.Native.Nat.{ℕ, ◌<◌, ◌*◌, ◌/◌, ◌%◌, ◌^◌, ◌-◌, bit_and, bit_xor}
use mathlib.Core.Path.{◌≡◌, refl}
use mathlib.Core.Bool.{Bool, true}
use github_codespaces_proxy.Base.Tests.{◌==◌, ==_iff}
use github_codespaces_proxy.Base.Tables.{passes, passes_at}

xor_row : ℕ → Bool
xor_row k = passes (λ x. bit_xor (bit_xor x k) k == x) 256

xor_table : passes xor_row 256 ≡ true
unfolding passes xor_row
xor_table = refl

-- Masking a byte twice by the same key byte gives it back.
pub bit_xor_twice : (x k : ℕ) → x < 256 → k < 256 → bit_xor (bit_xor x k) k ≡ x
unfolding xor_row
bit_xor_twice x k hx hk =
    (==_iff _ x).0 (passes_at _ 256 (passes_at xor_row 256 xor_table k hk) x hx)

-- A mask of the top r bits of a byte keeps the quotient by 2 ^ (8 - r).
keeps_top : ℕ → Bool
keeps_top r =
    passes (λ x. bit_and x (0xff * 2 ^ (8 - r) % 256) == x / 2 ^ (8 - r) * 2 ^ (8 - r)) 256

keeps_top_table : passes keeps_top 9 ≡ true
unfolding passes keeps_top
keeps_top_table = refl

pub bit_and_top :
    (x r : ℕ)
    → x < 256
    → r < 9
    → bit_and x (0xff * 2 ^ (8 - r) % 256) ≡ x / 2 ^ (8 - r) * 2 ^ (8 - r)
unfolding keeps_top
bit_and_top x r hx hr =
    (==_iff _ _).0 (passes_at _ 256 (passes_at keeps_top 9 keeps_top_table r hr) x hx)
