-- ===== src/Prelude/Wf.antt =====
-- The order of the native numbers is well founded: recursion where a number falls.
use mathlib.Core.WellFounded.{Acc, WellFounded}
use volga.Prelude.{ℕ, zero, suc, ◌≤◌, ◌<◌, arith}

Acc-le : (bound n : ℕ) → n ≤ bound → Acc ◌<◌ n
Acc-le zero n h = Acc.intro n (λ k lower. absurd (omega arith))
Acc-le (suc bound) n h = Acc.intro n (λ k lower. Acc-le bound k (omega arith))

unfoldable pub lt_wf : WellFounded ◌<◌
unfolding Acc-le
lt_wf = record { apply = λ n. Acc-le n n (omega arith) }
