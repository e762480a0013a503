-- ===== src/Operators/Tests.antt =====
-- Runs of the operators on a few records.
use volga.Prelude.{nat_eq, ℕ, ◌+◌, ◌%◌, ◌≡◌, true, none, some, List, [], ◌∷◌, ok}
use volga.Prelude.Dict
use volga.Prelude.Dict.{Dict}
use volga.Operators.{
  Record, OneInput, map_operator, filter_operator, key_by_operator, reduce_operator, feed,
  process_chained, process_element,
}
use volga.Operators.Chain.{pipeline, chained_is_pipeline}
use volga.Operators.Join.{JoinState}
use volga.Operators.Join.Pairs.{
  Arrival, from_left, from_right, arrive, all_pairs, lefts, rights, join_pairs,
}
use volga.Operators.Reduce.{with_keys, reduced, values, prefixes, reduce_lem}
use volga.Operators.Message.{record_from_channel_message, to_channel_message, record_round_trip}
use mathlib.Core.List.{Perm}

abbrev plain : ℕ → Record ℕ ℕ
plain v = record {
  key = none;
  value = v;
  stream_name = none;
  event_time = some v;
  source_emit_ts = none;
}

-- Counts by parity, after one is added.
abbrev parity_chain : List (OneInput ℕ ℕ)
parity_chain =
    map_operator (λ v. v + 1)
    ∷ filter_operator (λ v. true)
    ∷ key_by_operator (λ v. v % 2)
    ∷ reduce_operator (λ a b. a + b) []
    ∷ []

abbrev five : List (Record ℕ ℕ)
five = plain 1 ∷ plain 2 ∷ plain 3 ∷ plain 4 ∷ plain 5 ∷ []

chained_is_pipeline_example :
    feed (process_chained (λ i. i)) parity_chain five ≡ pipeline (λ i. i) parity_chain five
chained_is_pipeline_example = chained_is_pipeline (λ i. i) parity_chain five

abbrev arrivals : List (Arrival ℕ ℕ)
arrivals =
    from_left 1 (plain 10)
    ∷ from_right 1 (plain 20)
    ∷ from_right 2 (plain 30)
    ∷ from_left 1 (plain 40)
    ∷ from_left 2 (plain 50)
    ∷ []

join_pairs_example :
    (after : JoinState ℕ ℕ) × (outs : List (Record ℕ ℕ)) × (feed
        (arrive (λ a b. a + b))
        (record { left_records_dict = []; right_records_dict = [] })
        arrivals
      ≡ ok (after, outs))
    × Perm outs (all_pairs (λ a b. a + b) (lefts arrivals) (rights arrivals))
join_pairs_example = join_pairs (λ a b. a + b) arrivals

abbrev keyed_values : List (ℕ × Record ℕ ℕ)
keyed_values = (1, plain 10) ∷ (2, plain 20) ∷ (1, plain 30) ∷ []

reduce_lem_example :
    (after : Dict ℕ ℕ) × (outs : List (Record ℕ ℕ)) × (feed
        (process_element (λ i. i))
        (reduce_operator (λ a b. a + b) [])
        (with_keys keyed_values)
      ≡ ok (reduce_operator (λ a b. a + b) after, outs))
    × ((k : ℕ) → Dict.get k after ≡ reduced (λ a b. a + b) k none keyed_values)
    × (values outs ≡ prefixes (λ a b. a + b) [] keyed_values)
reduce_lem_example = reduce_lem (λ i. i) (λ a b. a + b) keyed_values

record_round_trip_example :
    record_from_channel_message (to_channel_message (plain 7)) ≡ ok (plain 7)
record_round_trip_example = record_round_trip (plain 7)
