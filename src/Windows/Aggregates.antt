-- ===== src/Windows/Aggregates.antt =====
-- `AllAggregateFunction` over the records of a window (aggregate_function.py, window_function.py).
use volga.Prelude.{◌≡◌, refl, some, List, [], ◌∷◌}
use volga.Operators.{Record}
use volga.Windows.{
  AggregationType, max_type, min_type, count_type, sum_type, avg_type, Arithmetic, Aggs,
  create_accumulator, entry, update, add, add_records, apply,
}

-- The operation along a list, from the left.
unfoldable pub folded : {N : Type 0} → (N → N → N) → N → List N → N
folded op acc [] = acc
folded op acc (n ∷ ns) = folded op (op acc n) ns

-- Accumulators with the entries of one type.
abbrev only_min : {N : Type 0} → N → Aggs N
only_min n = record create_accumulator { min = some n }

abbrev only_max : {N : Type 0} → N → Aggs N
only_max n = record create_accumulator { max = some n }

abbrev only_count : {N : Type 0} → N → Aggs N
only_count n = record create_accumulator { count = some n }

abbrev only_sum : {N : Type 0} → N → Aggs N
only_sum n = record create_accumulator { sum = some n }

abbrev mean_of : {N : Type 0} → Arithmetic N → N → N → Aggs N
mean_of num s c = record create_accumulator {
  count = some c;
  sum = some s;
  avg = some (num.divide s c);
}

module _ {V K N : Type 0} (num : Arithmetic N) (agg_on_func : V → N) where
  unfoldable pub values : List (Record V K) → List N
  values [] = []
  values (r ∷ rs) = agg_on_func r.value ∷ values rs

  unfoldable pub ones : List (Record V K) → List N
  ones [] = []
  ones (r ∷ rs) = num.one ∷ ones rs

  -- What an aggregate is by its name: the smallest, the greatest, the count, the sum or the mean of
  -- the values.
  unfoldable pub aggregate : AggregationType → Record V K → List (Record V K) → N
  unfolding folded values ones
  aggregate min_type r rs = folded num.lesser (agg_on_func r.value) (values rs)
  aggregate max_type r rs = folded num.greater (agg_on_func r.value) (values rs)
  aggregate count_type r rs = folded num.plus num.one (ones rs)
  aggregate sum_type r rs = folded num.plus (agg_on_func r.value) (values rs)
  aggregate avg_type r rs =
      num.divide (folded num.plus (agg_on_func r.value) (values rs))
        (folded num.plus num.one (ones rs))

  mins :
      (rs : List (Record V K)) (n : N)
      → add_records num agg_on_func min_type rs (only_min n)
        ≡ only_min (folded num.lesser n (values rs))
  unfolding add_records add update folded values
  mins [] n = refl
  mins (r ∷ rs) n = mins rs (num.lesser n (agg_on_func r.value))

  maxes :
      (rs : List (Record V K)) (n : N)
      → add_records num agg_on_func max_type rs (only_max n)
        ≡ only_max (folded num.greater n (values rs))
  unfolding add_records add update folded values
  maxes [] n = refl
  maxes (r ∷ rs) n = maxes rs (num.greater n (agg_on_func r.value))

  counts :
      (rs : List (Record V K)) (n : N)
      → add_records num agg_on_func count_type rs (only_count n)
        ≡ only_count (folded num.plus n (ones rs))
  unfolding add_records add update folded ones
  counts [] n = refl
  counts (r ∷ rs) n = counts rs (num.plus n num.one)

  sums :
      (rs : List (Record V K)) (n : N)
      → add_records num agg_on_func sum_type rs (only_sum n)
        ≡ only_sum (folded num.plus n (values rs))
  unfolding add_records add update folded values
  sums [] n = refl
  sums (r ∷ rs) n = sums rs (num.plus n (agg_on_func r.value))

  means :
      (rs : List (Record V K)) (s c : N)
      → add_records num agg_on_func avg_type rs (mean_of num s c)
        ≡ mean_of num (folded num.plus s (values rs)) (folded num.plus c (ones rs))
  unfolding add_records add update folded values ones
  means [] s c = refl
  means (r ∷ rs) s c = means rs (num.plus s (agg_on_func r.value)) (num.plus c num.one)

  -- Over at least one record, the entry of the aggregation type that `apply` leaves is the aggregate of
  -- the records by that type, for each of the five types.
  pub apply_lem :
      (type : AggregationType) (r : Record V K) (rs : List (Record V K))
      → entry type (apply num agg_on_func type (r ∷ rs)) ≡ some (aggregate type r rs)
  unfolding apply add_records add update entry aggregate
  apply_lem min_type r rs = rw (mins rs (agg_on_func r.value)) refl
  apply_lem max_type r rs = rw (maxes rs (agg_on_func r.value)) refl
  apply_lem count_type r rs = rw (counts rs num.one) refl
  apply_lem sum_type r rs = rw (sums rs (agg_on_func r.value)) refl
  apply_lem avg_type r rs = rw (means rs (agg_on_func r.value) num.one) refl
