-- ===== src/Stats/Worker/Counts.antt =====
-- `WorkerThroughputStatsState` (stats_manager.py): no message is lost between collections.
use volga.Prelude.{
  nat_eq, ℕ, suc, ◌+◌, ◌≤◌, ◌<◌, ◌==◌, ◌≡◌, true, false, List, [], ◌∷◌, arith, Bool-cases, inl, inr,
  All, beq_refl,
}
use volga.Prelude.Int.{ℤ, pos, negsuc}
use volga.Prelude.Dict
use volga.Prelude.Dict.{Dict}
use volga.Stats.Hist.{sum}
use volga.Stats.Worker.{
  ms_to_s, WorkerThroughputStatsState, new_worker_throughput, bucket_or, inc_at, inc,
  collect_throughput,
}

-- What the worker is told: a message at a time, or a collection.
pub data Event : Type 0 where
  message : ℕ → Event
  collection : Event

-- Runs the events, and adds up what the collections returned.
unfoldable pub run : List Event → WorkerThroughputStatsState → ℕ → WorkerThroughputStatsState × ℕ
unfolding inc_at collect_throughput sum
run [] state sent = (state, sent)
run (message now ∷ events) state sent = run events (inc now state) sent
run (collection ∷ events) state sent =
    let (next, update) = collect_throughput state in
    run events next (sent + sum (Dict.values update))

unfoldable pub messages : List Event → ℕ
messages [] = 0
messages (message now ∷ events) = suc (messages events)
messages (collection ∷ events) = messages events

-- The clock does not go back.
unfoldable pub IsForward : ℕ → List Event → Type 0
IsForward from [] = Unit
IsForward from (message now ∷ events) = (from ≤ now) × IsForward now events
IsForward from (collection ∷ events) = IsForward from events

-- The closed seconds are before the open one, which is not after the clock.
record IsOpenAt (sec : ℕ) (state : WorkerThroughputStatsState) : Type 0 where
  recent : bucket_or sec state.cur_bucket_id ≤ sec
  closed : All (λ ((s, n) : ℕ × ℕ). s < bucket_or sec state.cur_bucket_id) state.num_messages_per_s

sum-put_new :
    (k v : ℕ) (d : Dict ℕ ℕ)
    → All (λ ((s, n) : ℕ × ℕ). s < k) d
    → sum (Dict.values (Dict.put k v d)) ≡ sum (Dict.values d) + v
unfolding sum Dict.put
sum-put_new k v [] h = omega arith
sum-put_new k v ((j, w) ∷ d) h =
    let other : (j == k) ≡ false = ground arith in rw other (omega (arith, sum-put_new k v d h.1))

unfoldable pub counted : WorkerThroughputStatsState → ℕ
unfolding sum
counted state = sum (Dict.values state.num_messages_per_s) + state.cur_bucket_val

All-below :
    {a b : ℕ} (d : Dict ℕ ℕ)
    → a ≤ b
    → All (λ ((s, n) : ℕ × ℕ). s < a) d
    → All (λ ((s, n) : ℕ × ℕ). s < b) d
All-below [] h k = tt
All-below ((s, n) ∷ d) h k = (omega (arith, k.0), All-below d h k.1)

inc_at-fields :
    (before sec : ℕ) (d : Dict ℕ ℕ) (cur : ℤ) (v : ℕ)
    → before ≤ sec
    → let state : WorkerThroughputStatsState = record {
      num_messages_per_s = d;
      cur_bucket_id = cur;
      cur_bucket_val = v;
    } in
      IsOpenAt before state
      → IsOpenAt sec (inc_at sec state) × (counted (inc_at sec state) ≡ suc (counted state))
unfolding inc_at counted
inc_at-fields before sec d (negsuc n) v h open_at =
    let same : (sec == sec) ≡ true = beq_refl sec in
    rw same (record { recent = omega arith; closed = All-below d h open_at.closed }, omega arith)
inc_at-fields before sec d (pos b) v h open_at = elim (Bool-cases (b == sec)) [
  | inl same ↦
      rw same
        (record { recent = omega (arith, open_at.recent); closed = open_at.closed }, omega arith)
  | inr other ↦
      let le : b < sec = ground (arith, open_at.recent) in
      rw other (
        record {
          recent = omega arith;
          closed =
              Dict.All-put (λ ((s, n) : ℕ × ℕ). s < sec) b v d le
                (All-below d (omega arith) open_at.closed);
        },
        omega (arith, sum-put_new b v d open_at.closed),
      )
]

inc_at-counts :
    (before sec : ℕ) (state : WorkerThroughputStatsState)
    → before ≤ sec
    → IsOpenAt before state
    → IsOpenAt sec (inc_at sec state) × (counted (inc_at sec state) ≡ suc (counted state))
inc_at-counts before sec state =
    inc_at-fields before sec state.num_messages_per_s state.cur_bucket_id state.cur_bucket_val

run-counts :
    (events : List Event) (from : ℕ) (state : WorkerThroughputStatsState) (sent : ℕ)
    → IsForward from events
    → IsOpenAt (ms_to_s from) state
    → (run events state sent).1 + counted (run events state sent).0
      ≡ sent + counted state + messages events
unfolding run messages IsForward counted sum
run-counts [] from state sent h k = omega arith
run-counts (message now ∷ events) from state sent h k =
    let (k1, one) = inc_at-counts (ms_to_s from) (ms_to_s now) state (omega (arith, h.0)) k in
    omega (arith, run-counts events now (inc now state) sent h.1 k1, one)
run-counts (collection ∷ events) from state sent h k =
    let after = record state { num_messages_per_s = [] } in
    let rest =
      run-counts events from after (sent + sum (Dict.values state.num_messages_per_s)) h
        (record { recent = k.recent; closed = tt }) in
    omega (arith, rest)

-- While the clock does not go back, every message since the worker's start is in exactly one place:
-- in an update that was collected, in a second that waits to be, or in the open second.
pub messages_counted_once :
    (events : List Event) (from : ℕ)
    → IsForward from events
    → let (state, sent) = run events new_worker_throughput 0 in
      sent + sum (Dict.values state.num_messages_per_s) + state.cur_bucket_val ≡ messages events
messages_counted_once events from h =
    let total =
      run-counts events from new_worker_throughput 0 h
        (record { recent = omega arith; closed = tt }) in
    unfold counted sum in omega (arith, total)
