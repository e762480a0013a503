-- ===== src/Dataset/Aggregate.antt =====
-- volga/api/dataset/operators.py: the record that the dataset's aggregate makes of an event and of
-- the aggregates per window. `is_time_str` is a parameter: it asks the parser of dates.
pub mod Output
use Prim.Native.String.{String}
use volga.Prelude.{
  Bool, true, false, Option, none, some, List, [], ◌∷◌, Result, ok, raised, ◌>>=◌, if◌then◌else◌,
  string_eq,
}
use volga.Prelude.Dict
use volga.Prelude.Dict.{Dict}
use volga.Dataset.{Schema, copy_all}

-- The first value that reads as a time.
unfoldable pub find_time : {V : Type 0} → (V → Bool) → List V → Option V
find_time is_time_str [] = none
find_time is_time_str (v ∷ vs) = if is_time_str v then some v else find_time is_time_str vs

module _ {T : Type 0} {V : Type 0} (is_time_str : V → Bool) where
  -- `_output_window_func`, on the value of the record.
  unfoldable pub output_window : Schema T → Dict String V → Dict String V → Result (Dict String V)
  unfolding find_time copy_all
  output_window output_schema aggs_per_window record_value =
      copy_all (Dict.keys output_schema.keys) record_value [] >>= λ res.
      elim (find_time is_time_str (Dict.values record_value)) [
        | none ↦ raised
        | some ts ↦
            copy_all (Dict.keys output_schema.values) aggs_per_window
              (Dict.put output_schema.timestamp ts res)
      ]
