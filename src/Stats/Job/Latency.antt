-- ===== src/Stats/Job/Latency.antt =====
-- `JobLatencyStatsState` (stats_manager.py): what the merge of the window leaves in it.
use volga.Prelude.{nat_eq, ℕ, ◌+◌, ◌≡◌, refl, ap, true, List, [], ◌∷◌, arith, All, map}
use volga.Prelude.Dict
use volga.Prelude.Dict.{Dict}
use volga.Stats.Hist.{Hist, ok, is_sorted, sum}
use volga.Stats.Hist.Merge.{IsOver, total, Distinct, merge-total}
use volga.Stats.Worker.Locked.{observations}
use volga.Stats.Job.{merge_window}

All-values :
    (bs : List ℕ) (d : Dict ℕ Hist)
    → All (λ ((s, h) : ℕ × Hist). IsOver bs h) d
    → All (IsOver bs) (Dict.values d)
All-values bs [] h = tt
All-values bs ((s, x) ∷ d) h = (h.0, All-values bs d h.1)

observations-sum : (d : Dict ℕ Hist) → observations d ≡ sum (map total (Dict.values d))
unfolding observations sum
observations-sum [] = refl
observations-sum ((s, x) ∷ d) = ap (λ (n : ℕ). total x + n) (observations-sum d)

-- The merge of a window counts all its observations, and leaves them all in the histogram of its
-- first second: the next merge of the same window counts those of the other seconds again.
pub first_second_absorbs :
    (bs : List ℕ) (s : ℕ) (h : Hist) (rest : Dict ℕ Hist)
    → is_sorted bs ≡ true
    → Distinct bs
    → All (λ ((s, h) : ℕ × Hist). IsOver bs h) ((s, h) ∷ rest)
    → (m : Hist) × (first : Hist) × (merge_window ((s, h) ∷ rest) ≡ ok (m, (s, first) ∷ rest))
      × (total m ≡ observations ((s, h) ∷ rest))
      × (observations ((s, first) ∷ rest) ≡ observations ((s, h) ∷ rest) + observations rest)
unfolding merge_window observations
first_second_absorbs bs s h rest sorted u over =
    let (m, run, count, over_m) =
      merge-total bs h (Dict.values rest) sorted u (over.0, All-values bs rest over.1) in
    let first = record h { hist = m.hist } in
    (
      m,
      first,
      rw run refl,
      omega (arith, count, observations-sum rest),
      omega (arith, count, observations-sum rest),
    )
