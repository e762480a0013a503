-- ===== src/Storage/Tests.antt =====
-- A few stored values and queries.
use volga.Prelude.{
  string_eq, ℕ, ◌≡◌, refl, Bool, some, List, [], ◌∷◌, ltb, length, arith, Result, ok, raised, suc,
  inl,
}
use volga.Prelude.Dict
use volga.Storage.{Keys, add_to_set, bisect_right, insort, put_keys, get_keys}
use volga.Storage.Stored.{insort_stores}
use volga.Storage.Cache.{slice}
use volga.Storage.Cache.Ranges.{
  out_of_range_raises, Event, value, dump, all_of, run_sink, records_of, bulk_sink_keeps,
}
use mathlib.Core.List.{Perm}

abbrev compare_numbers : ℕ → ℕ → Result Bool
compare_numbers a b = ok (ltb a b)

abbrev two_stored : List (ℕ × ℕ)
two_stored = (3, 10) ∷ (5, 20) ∷ []

insort_stores_example :
    (ys : List (ℕ × ℕ)) × (insort compare_numbers (4, 30) two_stored ≡ ok ys)
    × Perm ys ((4, 30) ∷ two_stored)
    × (bisect_right compare_numbers
          (suc (length two_stored))
          (4, 30)
          0
          (length two_stored)
          two_stored
        ≡ bisect_right compare_numbers (length two_stored) (4, 30) 0 (length two_stored) two_stored)
insort_stores_example = insort_stores compare_numbers (λ v w. (ltb v w, refl)) (4, 30) two_stored

out_of_range_raises_example : slice (some 9) (some 12) two_stored ≡ raised
out_of_range_raises_example =
    out_of_range_raises two_stored 9 12 (inl (omega arith, (omega arith, tt)))

abbrev no_keys : ℕ → Keys
no_keys v = []

abbrev own_time : ℕ → ℕ
own_time v = v

abbrev sink_events : List (Event ℕ)
sink_events = value 1 ∷ value 2 ∷ dump ∷ value 3 ∷ []

bulk_sink_keeps_example :
    all_of no_keys own_time
      (run_sink no_keys own_time sink_events (record { buffer = []; sent = [] }))
    ≡ records_of no_keys own_time sink_events
bulk_sink_keeps_example = bulk_sink_keeps no_keys own_time sink_events

-- The index does not find a record by both of its two keys.
abbrev two_keys : Keys
two_keys = ("id", "1") ∷ ("day", "2") ∷ []

two_keys-lost : get_keys two_keys (put_keys two_keys []) ≡ []
unfolding get_keys put_keys add_to_set Dict.get Dict.put
two_keys-lost = refl
