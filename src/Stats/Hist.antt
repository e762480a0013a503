-- ===== src/Stats/Hist.antt =====
-- volga/streaming/runtime/master/stats/hist.py. Buckets and values are whole milliseconds.
pub mod Observe
pub mod Merge
pub mod Percentile
pub mod Fresh
pub use volga.Prelude.{Result, ok, raised, ◌>>=◌}
use volga.Prelude.{
  nat_eq, ℕ, zero, suc, ◌+◌, ◌*◌, Bool, true, false, ◌&&◌, Option, none, some, List, [], ◌∷◌, ◌==◌,
  ltb, leb, if◌then◌else◌, get_elem?, length,
}
use volga.Prelude.Int.{ℤ, pos, negsuc}
use volga.Prelude.Dict
use volga.Prelude.Dict.{Dict}

pub record Hist : Type 0 where
  pub buckets : List ℕ
  pub hist : Dict ℕ ℕ

unfoldable pub is_sorted : List ℕ → Bool
is_sorted [] = true
is_sorted (a ∷ []) = true
is_sorted (a ∷ b ∷ bs) = leb a b && is_sorted (b ∷ bs)

unfoldable pub zeros : List ℕ → Dict ℕ ℕ → Dict ℕ ℕ
zeros [] d = d
zeros (b ∷ bs) d = zeros bs (Dict.put b 0 d)

-- `Hist(buckets)`
unfoldable pub new_hist : List ℕ → Result Hist
unfolding is_sorted zeros
new_hist buckets =
    if is_sorted buckets then ok (record { buckets = buckets; hist = zeros buckets [] }) else raised

-- `d[k] += n`
unfoldable pub add_at : ℕ → ℕ → Dict ℕ ℕ → Result (Dict ℕ ℕ)
add_at k n d = elim (Dict.get k d) [ none ↦ raised | some old ↦ ok (Dict.put k (old + n) d) ]

-- The loop over the buckets that are left; `prev` is the bucket before, or 0.
unfoldable pub observe_from : ℕ → List ℕ → ℕ → Dict ℕ ℕ → Result (Dict ℕ ℕ)
observe_from prev [] value d = raised
observe_from prev (cur ∷ []) value d =
    if ltb prev value && leb value cur
    then add_at cur 1 d
    else if ltb cur value
    then add_at cur 1 d
    else raised
observe_from prev (cur ∷ next ∷ rest) value d =
    let further = observe_from cur (next ∷ rest) value d in
    if ltb prev value && leb value cur then add_at cur 1 d else further

unfoldable pub observe_hist : ℕ → Hist → Result (Dict ℕ ℕ)
observe_hist zero h = elim h.buckets [ [] ↦ raised | b ∷ bs ↦ add_at b 1 h.hist ]
observe_hist (suc v) h = observe_from 0 h.buckets (suc v) h.hist

unfoldable pub observe : ℤ → Hist → Result Hist
observe (negsuc n) h = raised
observe (pos v) h = do d ← observe_hist v h; ok (record h { hist = d })

-- `for b in buckets: h[b] += other[b]`
unfoldable pub add_all : List ℕ → Dict ℕ ℕ → Dict ℕ ℕ → Result (Dict ℕ ℕ)
add_all [] other d = ok d
add_all (b ∷ bs) other d = elim (Dict.get b other) [
  | none ↦ raised
  | some n ↦ do d' ← add_at b n d; add_all bs other d'
]

unfoldable pub same_buckets : List ℕ → List ℕ → Bool
same_buckets [] [] = true
same_buckets [] (b ∷ bs) = false
same_buckets (a ∷ as') [] = false
same_buckets (a ∷ as') (b ∷ bs) = a == b && same_buckets as' bs

unfoldable pub merge_into : List ℕ → Dict ℕ ℕ → List Hist → Result (Dict ℕ ℕ)
merge_into buckets d [] = ok d
merge_into buckets d (h ∷ hs) =
    if same_buckets buckets h.buckets
    then (do d' ← add_all buckets h.hist d; merge_into buckets d' hs)
    else raised

-- `Hist.merge(hists)`. The counts are added into the dict of the first histogram, and the result
-- shares that dict: after the call the first histogram holds the merged counts too.
unfoldable pub merge : List Hist → Result Hist
merge [] = raised
merge (h ∷ hs) = do
  d ← merge_into h.buckets h.hist hs
  if is_sorted h.buckets then ok (record { buckets = h.buckets; hist = d }) else raised

unfoldable pub sum : List ℕ → ℕ
sum [] = 0
sum (n ∷ ns) = n + sum ns

-- How many of the cumulative sums are at most the share `p` of the total, in exact arithmetic. With
-- a total of 0 the source compares with NaN, and none is.
unfoldable pub cumulative_below : ℕ → ℕ → ℕ → List ℕ → ℕ
cumulative_below p total before [] = 0
cumulative_below p total before (n ∷ ns) =
    (if ltb 0 total && leb ((before + n) * 100) (p * total) then 1 else 0)
    + cumulative_below p total (before + n) ns

unfoldable pub percentile : ℕ → Hist → Result ℕ
unfolding sum
percentile p h =
    let vals = Dict.values h.hist in
    elim (get_elem? h.buckets (cumulative_below p (sum vals) 0 vals)) [
      | some b ↦ ok b
      | none ↦ raised
    ]

unfoldable pub percentiles : List ℕ → Hist → Result (List ℕ)
percentiles [] h = ok []
percentiles (p ∷ ps) h = do b ← percentile p h; bs ← percentiles ps h; ok (b ∷ bs)

unfoldable pub weighted_sum : Dict ℕ ℕ → ℕ
weighted_sum [] = 0
weighted_sum ((b, n) ∷ d) = b * n + weighted_sum d

-- `avg`, as the fraction that the source divides out.
unfoldable pub avg : Hist → Result (ℕ × ℕ)
unfolding sum weighted_sum
avg h = let s = sum (Dict.values h.hist) in if s == 0 then raised else ok (weighted_sum h.hist, s)
