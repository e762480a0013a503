-- ===== src/Windows.antt =====
-- volga/streaming/api/operators/window_operator.py, with the aggregates of
-- volga/streaming/api/function/aggregate_function.py and window_function.py. `N` is the numbers that
-- are aggregated (Decimal), with the operations that the code uses of them.
pub mod Contents
pub mod Aggregates
mod Tests
use Prim.Native.String.{String}
use volga.Prelude.{
  string_eq, ℕ, ◌-◌, Bool, true, false, Option, none, some, List, [], ◌∷◌, ◌++◌, map, if◌then◌else◌,
  ltb, Eq, Result, ok, raised, ◌>>=◌, insort_right,
}
use volga.Prelude.Dict
use volga.Prelude.Dict.{Dict}
use volga.Operators.{Record, unkeyed}

pub data AggregationType : Type 0 where
  max_type min_type count_type sum_type avg_type : AggregationType

pub record Arithmetic (N : Type 0) : Type 0 where
  pub plus : N → N → N
  pub divide : N → N → N
  pub lesser : N → N → N
  pub greater : N → N → N
  pub one : N

-- The entries of `_Acc.aggs`.
pub record Aggs (N : Type 0) : Type 0 where
  pub min : Option N
  pub max : Option N
  pub count : Option N
  pub sum : Option N
  pub avg : Option N

abbrev pub create_accumulator : {N : Type 0} → Aggs N
create_accumulator = record { min = none; max = none; count = none; sum = none; avg = none }

-- `accumulator.aggs[agg_type]`, with the entry missing or there.
unfoldable pub entry : {N : Type 0} → AggregationType → Aggs N → Option N
entry max_type acc = acc.max
entry min_type acc = acc.min
entry count_type acc = acc.count
entry sum_type acc = acc.sum
entry avg_type acc = acc.avg

-- `if key in aggs: aggs[key] = f(aggs[key], v)` and else `aggs[key] = v`
unfoldable pub update : {N : Type 0} → (N → N → N) → Option N → N → N
update f none v = v
update f (some old) v = f old v

module _ {V K N : Type 0} (num : Arithmetic N) (agg_on_func : V → N) where
  -- `AllAggregateFunction.add`
  unfoldable pub add : AggregationType → Record V K → Aggs N → Aggs N
  unfolding update
  add min_type r acc = record acc { min = some (update num.lesser acc.min (agg_on_func r.value)) }
  add max_type r acc = record acc { max = some (update num.greater acc.max (agg_on_func r.value)) }
  add count_type r acc = record acc { count = some (update num.plus acc.count num.one) }
  add sum_type r acc = record acc { sum = some (update num.plus acc.sum (agg_on_func r.value)) }
  add avg_type r acc =
      let count = update num.plus acc.count num.one in
      let sum = update num.plus acc.sum (agg_on_func r.value) in
      record acc { count = some count; sum = some sum; avg = some (num.divide sum count) }

  unfoldable pub add_records : AggregationType → List (Record V K) → Aggs N → Aggs N
  unfolding add
  add_records type [] acc = acc
  add_records type (r ∷ rs) acc = add_records type rs (add type r acc)

  -- `AllAggregateApplyWindowFunction.apply`
  unfoldable pub apply : AggregationType → List (Record V K) → Aggs N
  unfolding add_records
  apply type rs = add_records type rs create_accumulator

pub record SlidingWindowConfig (V N : Type 0) : Type 0 where
  pub length_s : ℕ
  pub agg_type : AggregationType
  pub agg_on_func : V → N
  pub name : String

pub record Window (V K N : Type 0) : Type 0 where
  pub records : List (Record V K)
  pub config : SlidingWindowConfig V N

-- The event time, where it is there.
abbrev pub time_of : {V K : Type 0} → Record V K → ℕ
time_of r = elim r.event_time [ some t ↦ t | none ↦ 0 ]

module _ {V K : Type 0} where
  -- `records[-1].event_time`
  unfoldable pub newest : List (Record V K) → ℕ
  newest [] = 0
  newest (r ∷ []) = time_of r
  newest (r ∷ s ∷ rs) = newest (s ∷ rs)

  -- `while records[-1].event_time - records[0].event_time > length_s: records.pop(0)`
  unfoldable pub remove_outdated : ℕ → ℕ → List (Record V K) → List (Record V K)
  remove_outdated length_s last [] = []
  remove_outdated length_s last (r ∷ rs) =
      let rest = remove_outdated length_s last rs in
      if ltb length_s (last - time_of r) then rest else r ∷ rs

  unfoldable pub insert_record : ℕ → Record V K → List (Record V K) → List (Record V K)
  unfolding newest remove_outdated
  insert_record length_s r records =
      let all = insort_right time_of r records in remove_outdated length_s (newest all) all

module _ {V K N : Type 0} ⦃e : Eq K⦄ (num : Arithmetic N) where
  -- The loop over the windows of a key: the windows after it, and the aggregate of each by its name.
  unfoldable pub process_windows :
      Record V K
      → List (Window V K N)
      → Dict String N
      → Result (List (Window V K N) × Dict String N)
  unfolding insert_record apply entry
  process_windows r [] aggs = ok ([], aggs)
  process_windows r (w ∷ ws) aggs =
      let records = insert_record w.config.length_s r w.records in
      if Dict.has w.config.name aggs
      then raised
      else elim (entry w.config.agg_type
          (apply num w.config.agg_on_func w.config.agg_type records)) [
            | none ↦ raised
            | some agg ↦ do
              rest ← process_windows r ws (Dict.put w.config.name agg aggs)
              ok (record w { records = records } ∷ rest.0, rest.1)
          ]

  -- `_create_windows`, where every configuration has its name and its length in seconds.
  unfoldable pub create_windows : List (SlidingWindowConfig V N) → List (Window V K N)
  create_windows [] = []
  create_windows (conf ∷ confs) = record { records = []; config = conf } ∷ create_windows confs

  -- `MultiWindowOperator.process_element`, on the windows by key. A record without a key fails the
  -- assertion, and one without an event time raises when times are subtracted.
  unfoldable pub process_multi_window :
      List (SlidingWindowConfig V N)
      → Record V K
      → Dict K (List (Window V K N))
      → Result (Dict K (List (Window V K N)) × Dict String N)
  unfolding process_windows create_windows
  process_multi_window configs r windows_per_key = elim r.key [
    | none ↦ raised
    | some k ↦ elim r.event_time [
      | none ↦ raised
      | some t ↦ do
        let windows = Dict.get_or k (create_windows configs) windows_per_key
        done ← process_windows r windows []
        ok (Dict.put k done.0 windows_per_key, done.1)
    ]
  ]

  -- The record that goes out where there is no output function.
  unfoldable pub default_output : Dict String N → Record V K → Record (Dict String N) K
  unfolding unkeyed
  default_output aggs r = unkeyed aggs r.event_time none
