-- ===== src/Storage/Cache.antt =====
-- `SimpleInMemoryCacheActor` (volga/storage/common/simple_in_memory_actor_storage.py) and the sink
-- functions that write to it. A query may leave out the keys, the start and the end.
pub mod Ranges
use Prim.Native.String.{String}
use volga.Prelude.{
  nat_eq, string_eq, ℕ, zero, suc, ◌-◌, ◌==◌, Bool, true, false, Option, none, some, List, [], ◌∷◌,
  ◌++◌, map, if◌then◌else◌, ltb, length, get_elem?, take, drop, Result, ok, raised, ◌>>=◌,
  insort_right,
}
use volga.Prelude.Dict
use volga.Prelude.Dict.{Dict}
use volga.Storage.{Keys, Dataset, put_all, get_keys}

-- `per_dataset_per_key` and `key_index_per_dataset`, which have the same names in them.
abbrev pub Cache : Type 0 → Type 0
Cache V = Dict String (Dataset V)

-- `put_records`
unfoldable pub put_records :
    {V : Type 0} → (V → V → Result Bool) → String → List (Keys × ℕ × V) → Cache V → Result (Cache V)
unfolding put_all
put_records value_less name records cache = do
  let start = Dict.get_or name (record { per_key = []; key_index = [] }) cache
  ds ← put_all value_less records start
  ok (Dict.put name ds cache)

module _ {V : Type 0} where
  -- `while timestamped_values[first][0] < start: first += 1`; past the end it raises.
  unfoldable pub first_from : ℕ → List (ℕ × V) → Result ℕ
  first_from start [] = raised
  first_from start ((t, v) ∷ xs) =
      let later = first_from start xs in if ltb t start then (do i ← later; ok (suc i)) else ok 0

  -- `while timestamped_values[last][0] > end: last -= 1`, as `last + 1`. Below 0 the index counts
  -- from the end, over values that are all too late, until it raises.
  unfoldable pub last_until : ℕ → ℕ → List (ℕ × V) → Result ℕ
  last_until end zero xs = raised
  last_until end (suc i) xs =
      let earlier = last_until end i xs in
      elim (get_elem? xs i) [
        | none ↦ raised
        | some (t, v) ↦ if ltb end t then earlier else ok (suc i)
      ]

  -- The values of a key in the range.
  unfoldable pub slice : Option ℕ → Option ℕ → List (ℕ × V) → Result (List (ℕ × V))
  unfolding first_from last_until
  slice start end xs = do
    first ← elim start [ some s ↦ first_from s xs | none ↦ ok 0 ]
    last ← elim end [ some e ↦ last_until e (length xs) xs | none ↦ ok (length xs) ]
    ok (drop first (take last xs))

  unfoldable pub slices :
      Option ℕ → Option ℕ → List String → Dict String (List (ℕ × V)) → Result (List (ℕ × V))
  unfolding slice
  slices start end [] per_key = ok []
  slices start end (k ∷ ks) per_key = elim (Dict.get k per_key) [
    | none ↦ raised
    | some xs ↦ do
      values ← slice start end xs
      rest ← slices start end ks per_key
      ok (values ++ rest)
  ]

  -- `res.sort(key=lambda e: e[0])`
  unfoldable pub sort_by_ts : List (ℕ × V) → List (ℕ × V) → List (ℕ × V)
  sort_by_ts sorted [] = sorted
  sort_by_ts sorted (x ∷ xs) = sort_by_ts (insort_right (λ ((t, v) : ℕ × V). t) x sorted) xs

  -- `get_values` with timestamps.
  unfoldable pub get_values :
      String → Option Keys → Option ℕ → Option ℕ → Cache V → Result (List (ℕ × V))
  unfolding slices sort_by_ts get_keys
  get_values name keys_dict start end cache = elim (Dict.get name cache) [
    | none ↦ raised
    | some ds ↦ do
      let keys : List String = elim keys_dict [
        | some d ↦ get_keys d ds.key_index
        | none ↦ Dict.keys ds.per_key
      ]
      res ← slices start end keys ds.per_key
      ok (sort_by_ts [] res)
  ]

  -- The loop of `get_latest` over the values from the last one back.
  unfoldable pub same_ts : ℕ → List (ℕ × V) → List V
  same_ts last_ts [] = []
  same_ts last_ts ((t, v) ∷ xs) =
      let more = same_ts last_ts xs in if t == last_ts then v ∷ more else []

  unfoldable pub backwards : List (ℕ × V) → List (ℕ × V) → List (ℕ × V)
  backwards done [] = done
  backwards done (x ∷ xs) = backwards (x ∷ done) xs

  unfoldable pub latest_of : List (ℕ × V) → Option (List V)
  unfolding same_ts
  latest_of [] = none
  latest_of ((t, v) ∷ xs) = some (same_ts t ((t, v) ∷ xs))

  -- `get_latest`
  unfoldable pub get_latest : String → Option Keys → Cache V → Result (Option (List V))
  unfolding get_values latest_of backwards
  get_latest name keys_dict cache = do
    vals ← get_values name keys_dict none none cache
    ok (latest_of (backwards [] vals))

-- The buffer of `BulkSinkToCacheActorFunction`, with what it sent to the actor. `keys_of` and `ts_of`
-- read the value by the schema.
pub record BulkSink (V : Type 0) : Type 0 where
  pub buffer : List (Keys × ℕ × V)
  pub sent : List (List (Keys × ℕ × V))

module _ {V : Type 0} (keys_of : V → Keys) (ts_of : V → ℕ) where
  unfoldable pub sink_bulk : V → BulkSink V → BulkSink V
  sink_bulk v s = record s { buffer = s.buffer ++ (keys_of v, ts_of v, v) ∷ [] }

  -- `_dump_buffer_if_needed`, which the dumper's loop and `close` call.
  unfoldable pub dump_buffer : BulkSink V → BulkSink V
  dump_buffer s = elim s.buffer [
    | [] ↦ s
    | x ∷ xs ↦ record { buffer = []; sent = s.sent ++ (x ∷ xs) ∷ [] }
  ]

  -- `SingleEventSinkToCacheActorFunction.sink`: the call to `put_records`.
  unfoldable pub sink_single : V → List (Keys × ℕ × V)
  sink_single v = (keys_of v, ts_of v, v) ∷ []
