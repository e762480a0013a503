-- ===== src/Sources.antt =====
-- The context of `SourceOperator` (volga/streaming/api/operators/operators.py), and
-- volga/streaming/runtime/sources/source_splits_manager.py. The split enumerators are a parameter.
pub mod Bounded
mod Tests
use volga.Prelude.{
  nat_eq, ℕ, zero, suc, ◌+◌, ◌%◌, ◌==◌, Bool, true, false, Option, none, some, List, [], ◌∷◌,
  if◌then◌else◌, Result, ok, raised, ◌>>=◌,
}
use volga.Prelude.Dict
use volga.Prelude.Dict.{Dict}
use volga.Operators.{Record, unkeyed}
use volga.Stats.Worker.{WorkerThroughputStatsState, new_worker_throughput, inc}

pub data SourceSplitType : Type 0 where
  more_available end_of_input : SourceSplitType

pub record SourceSplit (D : Type 0) : Type 0 where
  pub type : SourceSplitType
  pub data_of : Option D

abbrev pub is_end : SourceSplitType → Bool
is_end end_of_input = true
is_end more_available = false

-- An enumerator of the user: its state, and what `poll_next_split` answers a task.
module _ {D E : Type 0} (poll : ℕ → E → SourceSplit D × E) where
  -- `SourceSplitManager.poll_next_split`
  unfoldable pub poll_manager :
      (operator_id task_id : ℕ) → Dict ℕ E → Result (SourceSplit D × Dict ℕ E)
  poll_manager operator_id task_id enumerators = elim (Dict.get operator_id enumerators) [
    | none ↦ raised
    | some enumerator ↦
        let (split, after) = poll task_id enumerator in
        ok (split, Dict.put operator_id after enumerators)
  ]

-- `SourceContextImpl`
pub record SourceContext (D : Type 0) : Type 0 where
  pub num_records : Option ℕ
  pub num_fetched_records : ℕ
  pub finished : Bool
  pub current_split : Option (SourceSplit D)
  pub throughput_stats : WorkerThroughputStatsState

abbrev pub new_source_context : {D : Type 0} → Option ℕ → SourceContext D
new_source_context num_records = record {
  num_records = num_records;
  num_fetched_records = 0;
  finished = false;
  current_split = none;
  throughput_stats = new_worker_throughput;
}

-- `SourceOperator.open`: the context, from the function's `num_records()`, which raises where it is
-- not implemented (a source without a bound, or with splits).
unfoldable pub open_source : {D : Type 0} → Result ℕ → SourceContext D
open_source (ok n) = new_source_context (some n)
open_source raised = new_source_context none

-- `self.num_records == self.num_fetched_records`, where None equals no number.
abbrev pub reached : Option ℕ → ℕ → Bool
reached none n = false
reached (some bound) n = bound == n

abbrev event_time_of : {V : Type 0} → Option (V → Option ℕ) → V → Option ℕ
event_time_of (some assign) v = assign v
event_time_of none v = none

module _ {V K D : Type 0} (assign_timestamp : Option (V → Option ℕ)) where
  -- `collect`: the record that goes to each collector, and the context after it. The clock is read
  -- for the emission, at every 100th record, and for the throughput.
  unfoldable pub collect : (emit_ms inc_ms : ℕ) → V → SourceContext D → Record V K × SourceContext D
  unfolding unkeyed
  collect emit_ms inc_ms v ctx =
      let fetched = ctx.num_fetched_records + 1 in
      let source_emit_ts : Option ℕ = if fetched % 100 == 0 then some emit_ms else none in
      (
        unkeyed v (event_time_of assign_timestamp v) source_emit_ts,
        record ctx {
          num_fetched_records = fetched;
          throughput_stats = inc inc_ms ctx.throughput_stats;
          finished = if reached ctx.num_records fetched then true else ctx.finished;
        },
      )

-- What both ways of getting a split do with it.
unfoldable pub notice_end : {D : Type 0} → SourceSplit D → SourceContext D → SourceContext D
notice_end split ctx = record ctx {
  current_split = some split;
  finished = if is_end split.type then true else ctx.finished;
}

module _ {D E : Type 0} (poll : ℕ → E → SourceSplit D × E) where
  -- `poll_next_split`
  unfoldable pub poll_next_split :
      (operator_id task_id : ℕ)
      → Dict ℕ E
      → SourceContext D
      → Result (SourceSplit D × SourceContext D × Dict ℕ E)
  unfolding poll_manager notice_end
  poll_next_split operator_id task_id enumerators ctx = do
    answer ← poll_manager poll operator_id task_id enumerators
    ok (answer.0, notice_end answer.0 ctx, answer.1)

  -- `get_current_split`
  unfoldable pub get_current_split :
      (operator_id task_id : ℕ)
      → Dict ℕ E
      → SourceContext D
      → Result (SourceSplit D × SourceContext D × Dict ℕ E)
  unfolding poll_next_split notice_end
  get_current_split operator_id task_id enumerators ctx = elim ctx.current_split [
    | none ↦ poll_next_split operator_id task_id enumerators ctx
    | some split ↦ ok (split, notice_end split ctx, enumerators)
  ]
