-- ===== src/Prelude/Tables.antt =====
-- Facts about all small numbers, by a walk over them.
use Prim.Native.Nat.{ℕ, zero, suc, ◌+◌, ◌≤◌, ◌<◌}
use mathlib.Core.Path.{◌≡◌}
use mathlib.Core.Bool.{Bool, true, false}
use native.Mathlib.Omega.{arith}
use native.Mathlib.Decide.{dec_lt}
use drawterm.Prelude.Tests.{if◌then◌else◌}

-- Whether a test accepts the `count` numbers from `i` on.
unfoldable pub accepts : (ℕ → Bool) → ℕ → ℕ → Bool
accepts test i zero = true
accepts test i (suc count) = let rest = accepts test (suc i) count in if test i then rest else false

pub accepts_at :
    (test : ℕ → Bool) (i count k : ℕ)
    → accepts test i count ≡ true
    → i ≤ k
    → k < i + count
    → test k ≡ true
unfolding accepts
accepts_at test i zero k h low high = ground arith
accepts_at test i (suc count) k h low high = elim (dec_lt i k) [
  | yes above ↦ accepts_at test (suc i) count k (ground arith) above (omega arith)
  | no here ↦ let same : k ≡ i = omega arith in rw same (ground arith)
]
