-- ===== src/Stats/Tests.antt =====
-- Runs of the statistics on a few observations.
use volga.Prelude.{
  nat_eq, ℕ, ◌+◌, ◌-◌, ◌<◌, ◌≡◌, refl, true, false, some, List, [], ◌∷◌, if◌then◌else◌, ltb, arith,
  map, get_elem?,
}
use volga.Prelude.Int.{ℤ, pos, negsuc}
use volga.Prelude.Dict
use volga.Prelude.Dict.{Dict}
use volga.Stats.Hist.{Hist, ok, is_sorted, merge, observe, percentile, sum}
use volga.Stats.Hist.Merge.{IsOver, total, Distinct, merge-total}
use volga.Stats.Hist.Observe.{counted_by, observe_counts_once}
use volga.Stats.Hist.Percentile.{Passes, percentile_lem}
use volga.Stats.Worker
use volga.Stats.Worker.{
  WorkerLatencyStatsState, WorkerThroughputStatsState, new_worker_throughput, latency_bins_ms, Call,
  returns, throws, blocks, collect_latency,
}
use volga.Stats.Worker.Counts.{
  Event, message, collection, run, messages, IsForward, messages_counted_once,
}
use volga.Stats.Worker.Locked.{
  IsLatency, observations, nonnegative_counted_once, negative_latency_blocks,
}
use volga.Stats.Job.{
  merge_update, merge_updates, last_second, window_after, merge_window,
  throughput_aggregation_window_s,
}
use volga.Stats.Job.Throughput.{reported, throughput_window}
use volga.Stats.Job.Latency.{first_second_absorbs}

abbrev two_buckets : List ℕ
two_buckets = 10 ∷ 20 ∷ []

abbrev early : Hist
early = record { buckets = two_buckets; hist = (10, 3) ∷ (20, 1) ∷ [] }

abbrev late : Hist
late = record { buckets = two_buckets; hist = (10, 0) ∷ (20, 4) ∷ [] }

early-IsOver : IsOver two_buckets early
early-IsOver = record { same = refl; keys = refl }

late-IsOver : IsOver two_buckets late
late-IsOver = record { same = refl; keys = refl }

two_buckets-sorted : is_sorted two_buckets ≡ true
unfolding is_sorted
two_buckets-sorted = refl

two_buckets-Distinct : Distinct two_buckets
two_buckets-Distinct = ((refl, tt), (tt, tt))

merge-total_example :
    (out : Hist) × (merge (early ∷ late ∷ []) ≡ ok out)
    × (total out ≡ total early + sum (map total (late ∷ [])))
    × IsOver two_buckets out
merge-total_example =
    merge-total two_buckets early (late ∷ []) two_buckets-sorted two_buckets-Distinct
      (early-IsOver, (late-IsOver, tt))

observe_counts_once_example :
    (old : ℕ) × (out : Hist) × (observe (pos 15) early ≡ ok out)
    × (Dict.get (counted_by 15 10 (20 ∷ [])) early.hist ≡ some old)
    × (out.hist ≡ Dict.put (counted_by 15 10 (20 ∷ [])) (old + 1) early.hist)
    × (total out ≡ total early + 1)
    × IsOver two_buckets out
observe_counts_once_example = observe_counts_once 15 10 (20 ∷ []) early early-IsOver

early-some : 0 < total early
unfolding sum
early-some = omega arith

percentile_lem_example :
    (idx : ℕ) × (b : ℕ) × (percentile 95 early ≡ ok b)
    × (get_elem? two_buckets idx ≡ some b)
    × Passes 95 (total early) 0 (Dict.values early.hist) idx
percentile_lem_example = percentile_lem two_buckets 95 early early-IsOver (omega arith) early-some

nonnegative_counted_once_example :
    (out : Dict ℕ Hist) × (Worker.observe
        (pos 15)
        2000
        (record { latency_hists_per_s = []; locked = false })
      ≡ returns (record { latency_hists_per_s = out; locked = false }))
    × IsLatency out
    × (observations out ≡ observations [] + 1)
nonnegative_counted_once_example = nonnegative_counted_once 15 2000 [] tt

negative_latency_blocks_example :
    (after : WorkerLatencyStatsState) × (Worker.observe
        (negsuc 4)
        2000
        (record { latency_hists_per_s = []; locked = false })
      ≡ throws after)
    × ((l : ℤ) (later : ℕ) → Worker.observe l later after ≡ blocks)
    × (collect_latency after ≡ blocks)
negative_latency_blocks_example = negative_latency_blocks 4 2000 []

abbrev three_messages : List Event
three_messages = message 1000 ∷ message 1500 ∷ message 2100 ∷ collection ∷ message 3000 ∷ []

three_messages-IsForward : IsForward 900 three_messages
unfolding IsForward
three_messages-IsForward = (omega arith, (omega arith, (omega arith, (omega arith, tt))))

messages_counted_once_example :
    let (state, sent) = run three_messages new_worker_throughput 0 in
    sent + sum (Dict.values state.num_messages_per_s) + state.cur_bucket_val
    ≡ messages three_messages
messages_counted_once_example = messages_counted_once three_messages 900 three_messages-IsForward

abbrev old_window : Dict ℕ ℕ
old_window = (1, 9) ∷ (4, 1) ∷ []

abbrev worker_updates : List (Dict ℕ ℕ)
worker_updates = ((4, 7) ∷ (5, 2) ∷ []) ∷ ((5, 6) ∷ []) ∷ []

throughput_window_example :
    let newest =
      last_second (Dict.keys (merge_update (merge_updates worker_updates []) old_window)) in
    Dict.get_or 4 0 (window_after worker_updates old_window) ≡ (
      if ltb throughput_aggregation_window_s (newest - 4)
      then 0
      else Dict.get_or 4 0 old_window + reported 4 worker_updates)
throughput_window_example = throughput_window worker_updates old_window 4 ((refl, tt), (tt, tt))

first_second_absorbs_example :
    (m : Hist) × (first : Hist) × (merge_window ((7, early) ∷ (8, late) ∷ [])
      ≡ ok (m, (7, first) ∷ (8, late) ∷ []))
    × (total m ≡ observations ((7, early) ∷ (8, late) ∷ []))
    × (observations ((7, first) ∷ (8, late) ∷ [])
        ≡ observations ((7, early) ∷ (8, late) ∷ []) + observations ((8, late) ∷ []))
first_second_absorbs_example =
    first_second_absorbs two_buckets 7 early ((8, late) ∷ []) two_buckets-sorted
      two_buckets-Distinct (early-IsOver, (late-IsOver, tt))
