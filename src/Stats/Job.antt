-- ===== src/Stats/Job.antt =====
-- volga/streaming/runtime/master/stats/stats_manager.py: the statistics of the job, over a window of
-- the last seconds that the workers reported.
pub mod Window
pub mod Throughput
pub mod Latency
use volga.Prelude.{
  nat_eq, ℕ, zero, suc, ◌+◌, ◌-◌, ◌==◌, Bool, true, false, Option, none, some, List, [], ◌∷◌, ◌++◌,
  if◌then◌else◌, ltb, map,
}
use volga.Prelude.Dict
use volga.Prelude.Dict.{Dict}
use volga.Stats.Hist.{Hist, Result, ok, raised, ◌>>=◌, merge, percentiles, avg, sum}

abbrev pub latency_aggregation_window_s : ℕ
latency_aggregation_window_s = 5

abbrev pub throughput_aggregation_window_s : ℕ
throughput_aggregation_window_s = 2

-- `if s in d: d[s] += n` and else `d[s] = n`
unfoldable pub bump : ℕ → ℕ → Dict ℕ ℕ → Dict ℕ ℕ
bump s n d = if Dict.has s d then Dict.put s (Dict.get_or s 0 d + n) d else Dict.put s n d

unfoldable pub merge_update : Dict ℕ ℕ → Dict ℕ ℕ → Dict ℕ ℕ
merge_update [] acc = acc
merge_update ((s, n) ∷ up) acc = merge_update up (bump s n acc)

unfoldable pub merge_updates : List (Dict ℕ ℕ) → Dict ℕ ℕ → Dict ℕ ℕ
merge_updates [] acc = acc
merge_updates (up ∷ ups) acc = merge_updates ups (merge_update up acc)

-- `secs[-1]`
unfoldable pub last_second : List ℕ → ℕ
last_second [] = 0
last_second (s ∷ []) = s
last_second (s ∷ t ∷ secs) = last_second (t ∷ secs)

-- `for s in secs: if secs[-1] - s > window: del d[s]`
unfoldable pub remove_old {ℓ} : {V : Type ℓ} → ℕ → ℕ → List ℕ → Dict ℕ V → Dict ℕ V
remove_old window newest [] d = d
remove_old window newest (s ∷ secs) d =
    remove_old window newest secs (if ltb window (newest - s) then Dict.delete s d else d)

-- A rate is kept as the messages of the window, which the source divides by its seconds.
pub record JobThroughputStatsState : Type 0 where
  pub num_messages_per_s : Dict ℕ ℕ
  pub aggregated_throughput : List (ℕ × ℕ)

unfoldable pub window_after : List (Dict ℕ ℕ) → Dict ℕ ℕ → Dict ℕ ℕ
unfolding merge_updates merge_update bump last_second remove_old
window_after updates window =
    let all = merge_update (merge_updates updates []) window in
    let secs = Dict.keys all in
    remove_old throughput_aggregation_window_s (last_second secs) secs all

-- `JobThroughputStatsState.aggregate_updates`
unfoldable pub aggregate_throughput :
    List (Dict ℕ ℕ) → JobThroughputStatsState → JobThroughputStatsState
unfolding window_after merge_updates merge_update bump last_second remove_old sum
aggregate_throughput updates state =
    let all = merge_update (merge_updates updates []) state.num_messages_per_s in
    elim (Dict.keys all) [
      | [] ↦ record state { num_messages_per_s = all }
      | s ∷ secs ↦
          let window = window_after updates state.num_messages_per_s in
          record {
            num_messages_per_s = window;
            aggregated_throughput =
                state.aggregated_throughput
                ++ (last_second (s ∷ secs), sum (Dict.values window)) ∷ [];
          }
    ]

-- The aggregates of a window: the 95th, 75th and 50th percentile, and the average as a fraction.
pub record LatencyAggregate : Type 0 where
  pub percentiles : List ℕ
  pub avg : ℕ × ℕ

pub record JobLatencyStatsState : Type 0 where
  pub latency_hists_per_s : Dict ℕ Hist
  pub aggregated_latency_stats : List (ℕ × LatencyAggregate)

unfoldable pub group_update : Dict ℕ Hist → Dict ℕ (List Hist) → Dict ℕ (List Hist)
group_update [] grouped = grouped
group_update ((s, h) ∷ up) grouped = group_update up (Dict.push s h grouped)

unfoldable pub group_updates : List (Dict ℕ Hist) → Dict ℕ (List Hist) → Dict ℕ (List Hist)
group_updates [] grouped = grouped
group_updates (up ∷ ups) grouped = group_updates ups (group_update up grouped)

unfoldable pub merge_groups : Dict ℕ (List Hist) → Result (Dict ℕ Hist)
merge_groups [] = ok []
merge_groups ((s, hists) ∷ grouped) = do
  h ← merge hists
  rest ← merge_groups grouped
  ok ((s, h) ∷ rest)

unfoldable pub update_window : Dict ℕ Hist → Dict ℕ Hist → Result (Dict ℕ Hist)
update_window [] window = ok window
update_window ((s, h) ∷ merged) window = elim (Dict.get s window) [
  | some old ↦ do m ← merge (old ∷ h ∷ []); update_window merged (Dict.put s m window)
  | none ↦ update_window merged (Dict.put s h window)
]

-- `Hist.merge(list(self.latency_hists_per_s.values()))`: the merged counts are written into the
-- histogram of the first second, which stays in the window.
unfoldable pub merge_window : Dict ℕ Hist → Result (Hist × Dict ℕ Hist)
merge_window [] = raised
merge_window ((s, h) ∷ window) = do
  m ← merge (h ∷ Dict.values window)
  ok (m, (s, record h { hist = m.hist }) ∷ window)

unfoldable pub aggregate_window : Dict ℕ Hist → JobLatencyStatsState → Result JobLatencyStatsState
unfolding last_second remove_old merge_window percentiles avg
aggregate_window [] state = ok (record state { latency_hists_per_s = [] })
aggregate_window ((s, h) ∷ window) state = do
  let secs = s ∷ Dict.keys window
  let recent = remove_old latency_aggregation_window_s (last_second secs) secs ((s, h) ∷ window)
  merged_window ← merge_window recent
  ps ← percentiles (95 ∷ 75 ∷ 50 ∷ []) merged_window.0
  mean ← avg merged_window.0
  ok (record {
    latency_hists_per_s = merged_window.1;
    aggregated_latency_stats =
        state.aggregated_latency_stats
        ++ (last_second secs, record { percentiles = ps; avg = mean }) ∷ [];
  })

-- `JobLatencyStatsState.aggregate_updates`
unfoldable pub aggregate_latency :
    List (Dict ℕ Hist) → JobLatencyStatsState → Result JobLatencyStatsState
unfolding group_updates group_update merge_groups update_window aggregate_window
aggregate_latency [] state = ok state
aggregate_latency (up ∷ ups) state = do
  merged ← merge_groups (group_updates (up ∷ ups) [])
  window ← update_window merged state.latency_hists_per_s
  aggregate_window window state

pub data StatsUpdate : Type 0 where
  latency_update : Dict ℕ Hist → StatsUpdate
  throughput_update : Dict ℕ ℕ → StatsUpdate
  unknown_update : StatsUpdate

unfoldable pub split_updates : List StatsUpdate → Result (List (Dict ℕ Hist) × List (Dict ℕ ℕ))
split_updates [] = ok ([], [])
split_updates (latency_update d ∷ res) = do rest ← split_updates res; ok (d ∷ rest.0, rest.1)
split_updates (throughput_update d ∷ res) = do rest ← split_updates res; ok (rest.0, d ∷ rest.1)
split_updates (unknown_update ∷ res) = raised

-- `StatsManager._collect_stats_updates`, on what the workers answered.
unfoldable pub collect_stats_updates :
    List StatsUpdate
    → JobLatencyStatsState
    → JobThroughputStatsState
    → Result (JobLatencyStatsState × JobThroughputStatsState)
unfolding split_updates aggregate_latency aggregate_throughput
collect_stats_updates res latency throughput = do
  updates ← split_updates res
  latency' ← aggregate_latency updates.0 latency
  ok (latency', aggregate_throughput updates.1 throughput)
