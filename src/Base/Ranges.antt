-- ===== src/Base/Ranges.antt =====
-- A test at every number below a bound, by evaluation.
use Prim.Native.Nat.{ℕ, zero, suc, ◌<◌}
use mathlib.Core.Path.{◌≡◌}
use mathlib.Core.Logic.{inl, inr}
use mathlib.Core.Bool.{Bool, true, false}
use native.Mathlib.Omega.{arith}
use echo_ai_c.Base.Tests.{◌==◌, Bool-cases}

-- Whether a test holds at `n - 1`, …, 0.
unfoldable pub passes : (ℕ → Bool) → ℕ → Bool
passes test zero = true
passes test (suc k) = elim (test k) [ true ↦ passes test k | false ↦ false ]

pub passes-at : (test : ℕ → Bool) (n : ℕ) (v : ℕ) → v < n → passes test n ≡ true → test v ≡ true
unfolding passes
passes-at test zero v l h = absurd (omega arith)
passes-at test (suc k) v l h = elim (Bool-cases (v == k)) [
  | inl same ↦ let e : v ≡ k = ground arith in rw e (ground arith)
  | inr other ↦ passes-at test k v (ground arith) (ground arith)
]
