-- ===== src/Windows/Tests.antt =====
-- Windows over a few records, one of them late.
use volga.Prelude.{ℕ, ◌+◌, ◌/◌, ◌≡◌, none, some, List, [], ◌∷◌, if◌then◌else◌, ltb, IsSorted}
use volga.Operators.{Record}
use volga.Windows.{Arithmetic, avg_type, time_of, entry, apply}
use volga.Windows.Contents.{window_of, by_time, current, window_contents}
use volga.Windows.Aggregates.{aggregate, apply_lem}
use mathlib.Core.List.{Perm}

abbrev at_time : ℕ → Record ℕ ℕ
at_time t = record {
  key = some 1;
  value = t;
  stream_name = none;
  event_time = some t;
  source_emit_ts = none;
}

abbrev four_records : List (Record ℕ ℕ)
four_records = at_time 3 ∷ at_time 9 ∷ at_time 5 ∷ at_time 14 ∷ []

window_contents_example :
    (window_of 5 [] four_records ≡ current 5 (by_time 5 [] four_records))
    × IsSorted time_of (by_time 5 [] four_records)
    × Perm (by_time 5 [] four_records) four_records
window_contents_example = window_contents 5 four_records

abbrev whole_numbers : Arithmetic ℕ
whole_numbers = record {
  plus = λ a b. a + b;
  divide = λ a b. a / b;
  lesser = λ a b. if ltb a b then a else b;
  greater = λ a b. if ltb a b then b else a;
  one = 1;
}

apply_lem_example :
    entry avg_type (apply whole_numbers (λ v. v) avg_type four_records)
    ≡ some (
        aggregate whole_numbers
          (λ v. v)
          avg_type
          (at_time 3)
          (at_time 9 ∷ at_time 5 ∷ at_time 14 ∷ []))
apply_lem_example =
    apply_lem whole_numbers (λ v. v) avg_type (at_time 3) (at_time 9 ∷ at_time 5 ∷ at_time 14 ∷ [])
