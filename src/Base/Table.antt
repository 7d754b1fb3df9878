-- ===== src/Base/Table.antt =====
-- Facts about all numbers below a bound, checked by evaluation.
use edna.Base.Tests.{◌==◌, ==_iff}
use Prim.Native.Nat.{ℕ, zero, suc, ◌<◌}
use mathlib.Core.Path.{◌≡◌}
use mathlib.Core.Bool.{Bool, true, ◌&&◌}
use native.Mathlib.Omega.{arith}

-- `test` holds of every number below `bound`.
unfoldable pub passes : (ℕ → Bool) → ℕ → Bool
passes test zero = true
passes test (suc bound) = passes test bound && test bound

pub passes_at :
    (test : ℕ → Bool) (bound : ℕ) → passes test bound ≡ true → (k : ℕ) → k < bound → test k ≡ true
unfolding passes
passes_at test zero all k lt = absurd (omega arith)
passes_at test (suc bound) all k lt =
    ground (arith, λ (h : passes test bound ≡ true) (lt : k < bound). passes_at test bound h k lt)

-- Two functions that agree at every number below the bound.
pub agree_below :
    (n : ℕ) (f g : ℕ → ℕ) → passes (λ x. f x == g x) n ≡ true → (x : ℕ) → x < n → f x ≡ g x
agree_below n f g h x lt = (==_iff _ _).0 (passes_at _ n h x lt)
