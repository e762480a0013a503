-- ===== src/Stats/Worker.antt =====
-- volga/streaming/runtime/master/stats/stats_manager.py: what a worker counts between two
-- collections. The clock is an argument, in milliseconds.
pub mod Counts
pub mod Locked
use volga.Prelude.{
  nat_eq, ℕ, zero, suc, ◌+◌, ◌/◌, ◌==◌, Bool, true, false, Option, none, some, List, [], ◌∷◌,
  if◌then◌else◌,
}
use volga.Prelude.Int.{ℤ, pos, negsuc}
use volga.Prelude.Dict
use volga.Prelude.Dict.{Dict}
use volga.Stats.Hist.{Hist, Result, ok, raised, ◌>>=◌, new_hist}
use volga.Stats.Hist

abbrev pub ms_to_s : ℕ → ℕ
ms_to_s ms = ms / 1000

unfoldable pub bins : ℕ → ℕ → List ℕ
bins start zero = []
bins start (suc n) = start ∷ bins (start + 10) n

-- `[*range(10, 10000, 10)]`
unfoldable pub latency_bins_ms : List ℕ
unfolding bins
latency_bins_ms = bins 10 999

pub record WorkerLatencyStatsState : Type 0 where
  pub latency_hists_per_s : Dict ℕ Hist
  pub locked : Bool

-- A call that returns, one that leaves by an exception, and one that waits for the lock for good.
pub data Call {ℓ} (A : Type ℓ) : Type ℓ where
  returns : A → Call A
  throws : A → Call A
  blocks : Call A

abbrev pub new_worker_latency : WorkerLatencyStatsState
new_worker_latency = record { latency_hists_per_s = []; locked = false }

unfoldable pub observed : ℤ → ℕ → Dict ℕ Hist → Result (Dict ℕ Hist)
unfolding new_hist
observed latency_ms s hists = elim (Dict.get s hists) [
  | some hist ↦ do h ← Hist.observe latency_ms hist; ok (Dict.put s h hists)
  | none ↦ do
    hist ← new_hist latency_bins_ms
    h ← Hist.observe latency_ms hist
    ok (Dict.put s h hists)
]

-- `WorkerLatencyStatsState.observe`: it takes the lock and gives it back at its end, which an
-- exception of the histogram skips.
unfoldable pub observe : ℤ → ℕ → WorkerLatencyStatsState → Call WorkerLatencyStatsState
observe latency_ms ts_ms state =
    if state.locked
    then blocks
    else elim (observed latency_ms (ms_to_s ts_ms) state.latency_hists_per_s) [
      | ok hists ↦ returns (record { latency_hists_per_s = hists; locked = false })
      | raised ↦ throws (record state { locked = true })
    ]

unfoldable pub collect_latency :
    WorkerLatencyStatsState → Call (WorkerLatencyStatsState × Dict ℕ Hist)
collect_latency state =
    if state.locked then blocks else returns (new_worker_latency, state.latency_hists_per_s)

pub record WorkerThroughputStatsState : Type 0 where
  pub num_messages_per_s : Dict ℕ ℕ
  pub cur_bucket_id : ℤ
  pub cur_bucket_val : ℕ

abbrev pub new_worker_throughput : WorkerThroughputStatsState
new_worker_throughput = record {
  num_messages_per_s = [];
  cur_bucket_id = negsuc 0;
  cur_bucket_val = 0;
}

-- `if self.cur_bucket_id < 0: self.cur_bucket_id = s`
abbrev pub bucket_or : ℕ → ℤ → ℕ
bucket_or s (negsuc n) = s
bucket_or s (pos b) = b

unfoldable pub inc_at : ℕ → WorkerThroughputStatsState → WorkerThroughputStatsState
inc_at s state =
    let cur = bucket_or s state.cur_bucket_id in
    if cur == s
    then record state { cur_bucket_id = pos cur; cur_bucket_val = state.cur_bucket_val + 1 }
    else record {
      num_messages_per_s = Dict.put cur state.cur_bucket_val state.num_messages_per_s;
      cur_bucket_id = pos s;
      cur_bucket_val = 1;
    }

abbrev pub inc : ℕ → WorkerThroughputStatsState → WorkerThroughputStatsState
inc now_ts_ms state = inc_at (ms_to_s now_ts_ms) state

unfoldable pub collect_throughput :
    WorkerThroughputStatsState → WorkerThroughputStatsState × Dict ℕ ℕ
collect_throughput state = (record state { num_messages_per_s = [] }, state.num_messages_per_s)
