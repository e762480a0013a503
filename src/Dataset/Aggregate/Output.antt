-- ===== src/Dataset/Aggregate/Output.antt =====
-- volga/api/dataset/operators.py: what the aggregate's record has, and when there is none.
use Prim.Native.String.{String}
use volga.Prelude.{
  ◌≡◌, refl, ◌∙◌, Bool, none, some, List, [], ◌∷◌, ok, raised, if◌then◌else◌, Option-cases,
  string_eq, ◌⊎◌, inl, inr, In, arith,
}
use volga.Prelude.Dict
use volga.Prelude.Dict.{Dict}
use volga.Dataset.{Schema, contains, copy_all}
use volga.Dataset.Aggregate.{find_time, output_window}

module _ {V : Type 0} where
  -- What a copy comes to: the names' values over what was there, or a name that is not found.
  pub copy_all-cases :
      (names : List String) (source d : Dict String V)
      → ((d' : Dict String V) × (copy_all names source d ≡ ok d')
          × ((n : String)
              → Dict.get n d' ≡ (if contains names n then Dict.get n source else Dict.get n d)))
        ⊎ ((copy_all names source d ≡ raised)
            × (n : String) × In n names
            × (Dict.get n source ≡ none))
  unfolding copy_all contains
  copy_all-cases [] source d = inl (d, refl, λ n. refl)
  copy_all-cases (k ∷ names) source d = elim (Option-cases (Dict.get k source)) [
    | inl absent ↦ inr (rw (copy_all, absent), k, inl refl, absent)
    | inr (v, found) ↦ elim (copy_all-cases names source (Dict.put k v d)) [
      | inr (stops, n, at, missing) ↦ inr (rw (copy_all, found) stops, n, inr at, missing)
      | inl (d', runs, holds) ↦ inl (
        d',
        rw (copy_all, found) runs,
        λ n. ground (arith, string_eq.beq_iff k n, holds n, Dict.get-put k n v d, found),
      )
    ]
  ]

-- For every output schema, aggregates and event, one of two: either `_output_window_func` gives a
-- record in which each field of the schema's values is the aggregate of that name, the timestamp
-- field is the first value of the event that reads as a time, each other key field is the event's,
-- and no other field is there; or it raises, and a key field is missing in the event, or the event
-- has no value that reads as a time, or a value field is missing in the aggregates.
pub output_window_lem :
    {T : Type 0} {V : Type 0} (is_time_str : V → Bool) (s : Schema T) (aggs event : Dict String V)
    → ((res : Dict String V) × (ts : V) × (output_window is_time_str s aggs event ≡ ok res)
        × (find_time is_time_str (Dict.values event) ≡ some ts)
        × ((n : String)
            → Dict.get n res ≡ (
                if contains (Dict.keys s.values) n
                then Dict.get n aggs
                else (if string_eq.beq s.timestamp n
                    then some ts
                    else (if contains (Dict.keys s.keys) n then Dict.get n event else none)))))
      ⊎ ((output_window is_time_str s aggs event ≡ raised)
          × (((n : String) × In n (Dict.keys s.keys) × (Dict.get n event ≡ none))
              ⊎ ((find_time is_time_str (Dict.values event) ≡ none)
                  ⊎ ((n : String) × In n (Dict.keys s.values) × (Dict.get n aggs ≡ none)))))
unfolding output_window Dict.get
output_window_lem is_time_str s aggs event = elim (copy_all-cases (Dict.keys s.keys) event []) [
  | inr (stops, n, at, missing) ↦ inr (rw stops, inl (n, at, missing))
  | inl (res, runs, of_keys) ↦ elim (Option-cases (find_time is_time_str (Dict.values event))) [
    | inl timeless ↦ inr (rw runs (rw timeless), inr (inl timeless))
    | inr (ts, timed) ↦
        elim (copy_all-cases (Dict.keys s.values) aggs (Dict.put s.timestamp ts res)) [
          | inr (stops, n, at, missing) ↦ inr (rw runs (rw timed stops), inr (inr (n, at, missing)))
          | inl (out, ends, of_values) ↦ inl (
            out,
            ts,
            rw runs (rw timed ends),
            timed,
            λ n. of_values n ∙ rw (Dict.get-put s.timestamp n ts res) (rw (of_keys n)),
          )
        ]
  ]
]
