-- ===== src/Base/Tables.antt =====
-- A test of every number under a bound, by evaluation.
use Prim.Native.Nat.{ℕ, zero, suc, ◌<◌}
use mathlib.Core.Path.{◌≡◌}
use mathlib.Core.Logic.{inl, inr}
use mathlib.Core.Bool.{Bool, true, false}
use native.Mathlib.Omega.{arith}
use github_codespaces_proxy.Base.Tests.{◌==◌, if◌then◌else◌, Bool-cases}

unfoldable pub passes : (ℕ → Bool) → ℕ → Bool
passes test zero = true
passes test (suc bound) = if test bound then passes test bound else false

pub passes_at :
    (test : ℕ → Bool) (bound : ℕ) → passes test bound ≡ true → (i : ℕ) → i < bound → test i ≡ true
unfolding passes
passes_at test zero h i l = absurd (omega arith)
passes_at test (suc bound) h i l = elim (Bool-cases (i == bound)) [
  | inl e ↦ ground arith
  | inr e ↦ passes_at test bound (ground arith) i (ground arith)
]
