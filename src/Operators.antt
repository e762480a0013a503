-- ===== src/Operators.antt =====
-- volga/streaming/api/operators/operators.py and chained.py, with message.py and collector.py: what a
-- task does with a record. The functions that the user passes are parameters.
pub mod Chain
pub mod Reduce
pub mod Join
pub mod Message
mod Tests
use volga.Prelude.{
  ℕ, zero, suc, ◌+◌, ◌-◌, Bool, true, false, Option, none, some, List, [], ◌∷◌, ◌++◌, map,
  if◌then◌else◌, leb, Eq, Result, ok, raised, ◌>>=◌, length,
}
use volga.Prelude.Int.{ℤ, pos, negsuc}
use volga.Prelude.Dict
use volga.Prelude.Dict.{Dict}
use volga.Stats.Worker.{WorkerLatencyStatsState, Call, returns, throws, blocks, observe}
use Prim.Native.String.{String}

-- `Record`, and `KeyRecord` where there is a key.
pub record Record (V K : Type 0) : Type 0 where
  pub key : Option K
  pub value : V
  pub stream_name : Option String
  pub event_time : Option ℕ
  pub source_emit_ts : Option ℕ

-- The sink's statistics, the values passed to its function, and how often it read the clock.
pub record Sink (V : Type 0) : Type 0 where
  pub latency_stats : WorkerLatencyStatsState
  pub sunk : List V
  pub readings : ℕ

pub data OneInput (V K : Type 0) : Type 0 where
  map_operator : (V → V) → OneInput V K
  flat_map_operator : (V → List V) → OneInput V K
  filter_operator : (V → Bool) → OneInput V K
  key_by_operator : (V → K) → OneInput V K
  reduce_operator : (V → V → V) → Dict K V → OneInput V K
  union_operator : OneInput V K
  sink_operator : Sink V → OneInput V K

-- `ts - record.source_emit_ts`
unfoldable pub latency_of : ℕ → ℕ → ℤ
latency_of ts emitted = if leb emitted ts then pos (ts - emitted) else negsuc (emitted - ts - 1)

unfoldable pub observe_latency : {V : Type 0} → (ℕ → ℕ) → Option ℕ → Sink V → Result (Sink V)
unfolding latency_of
observe_latency clock none s = ok s
observe_latency clock (some emitted) s =
    let ts = clock s.readings in
    elim (observe (latency_of ts emitted) ts s.latency_stats) [
      | returns stats ↦ ok (record s { latency_stats = stats; readings = s.readings + 1 })
      | throws stats ↦ raised
      | blocks ↦ raised
    ]

unfoldable pub unkeyed : {V K : Type 0} → V → Option ℕ → Option ℕ → Record V K
unkeyed v event_time source_emit_ts = record {
  key = none;
  value = v;
  stream_name = none;
  event_time = event_time;
  source_emit_ts = source_emit_ts;
}

module _ {V K : Type 0} ⦃e : Eq K⦄ (clock : ℕ → ℕ) where
  -- `ReduceOperator.process_element`, of a record with a key.
  unfoldable pub reduce_element :
      (V → V → V) → Dict K V → K → Record V K → OneInput V K × List (Record V K)
  unfolding unkeyed
  reduce_element f state k r = elim (Dict.get k state) [
    | some old ↦
        let new = f old r.value in
        (reduce_operator f (Dict.put k new state), unkeyed new r.event_time r.source_emit_ts ∷ [])
    | none ↦ (reduce_operator f (Dict.put k r.value state), r ∷ [])
  ]

  -- `process_element` of each operator: the operator after it, and the records it collects. A call
  -- that raises, or that waits for good, is `raised`. The i-th reading of the clock is `clock i`.
  unfoldable pub process_element :
      OneInput V K → Record V K → Result (OneInput V K × List (Record V K))
  unfolding reduce_element observe_latency unkeyed
  process_element (map_operator f) r =
      ok (map_operator f, unkeyed (f r.value) r.event_time r.source_emit_ts ∷ [])
  process_element (flat_map_operator f) r =
      ok (flat_map_operator f, map (λ v. unkeyed v none none) (f r.value))
  process_element (filter_operator f) r = ok (filter_operator f, if f r.value then r ∷ [] else [])
  process_element (key_by_operator f) r =
      ok (key_by_operator f, record r { key = some (f r.value); stream_name = none } ∷ [])
  process_element (reduce_operator f state) r = elim r.key [
    | some k ↦ ok (reduce_element f state k r)
    | none ↦ raised
  ]
  process_element union_operator r = ok (union_operator, r ∷ [])
  process_element (sink_operator s) r = do
    observed ← observe_latency clock r.source_emit_ts s
    ok (sink_operator (record observed { sunk = observed.sunk ++ r.value ∷ [] }), [])

-- Gives a list of records to an operator, one after the other.
unfoldable pub feed :
    {S R Q : Type 0} → (S → R → Result (S × List Q)) → S → List R → Result (S × List Q)
feed f s [] = ok (s, [])
feed f s (r ∷ rs) = do first ← f s r; rest ← feed f first.0 rs; ok (rest.0, first.1 ++ rest.1)

module _ {V K : Type 0} ⦃e : Eq K⦄ (clock : ℕ → ℕ) where
  -- `process_element` of a chained operator. The `ForwardCollector` of an operator hands each record
  -- that it collects to the next one, and the last one's go out. The number bounds the depth.
  unfoldable pub forward :
      ℕ → List (OneInput V K) → Record V K → Result (List (OneInput V K) × List (Record V K))
  unfolding process_element feed
  forward n [] r = ok ([], r ∷ [])
  forward zero (op ∷ ops) r = raised
  forward (suc n) (op ∷ ops) r = do
    head ← process_element clock op r
    rest ← feed (forward n) ops head.1
    ok (head.0 ∷ rest.0, rest.1)

  -- The depth is the number of the operators.
  unfoldable pub process_chained :
      List (OneInput V K) → Record V K → Result (List (OneInput V K) × List (Record V K))
  unfolding forward
  process_chained ops r = forward (length ops) ops r
