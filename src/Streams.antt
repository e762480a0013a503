-- ===== src/Streams.antt =====
-- The fluent interface: volga/streaming/api/stream (stream.py, data_stream.py, stream_source.py,
-- stream_sink.py) and the id counter and sinks of volga/streaming/api/context/streaming_context.py.
-- A method that makes a stream takes the context and returns the context after it.
pub mod Numbered
mod Tests
use Prim.Native.String.{String}
use volga.JobGraph.{JobGraph}
use volga.JobGraph.Operator.{Runnable}
use volga.JobGraph.Builder.{build}
use volga.JobGraph.Optimizer.{Result, optimize}
use volga.Prelude.{ℕ, ◌+◌, Option, none, some, List, [], ◌∷◌, ◌++◌}
use volga.Partition.{PartitionClass, forward, key}
use volga.JobGraph.Operator.{
  OperatorClass, StreamOperator, source_operator, map_operator, flat_map_operator, filter_operator,
  key_by_operator, reduce_operator, sink_operator, join_operator, multi_window_operator,
}
use volga.JobGraph.Builder.{
  Attributes, attributes, Stream, stream_source, data_stream, join_stream, union_stream,
  stream_sink,
}

pub record StreamingContext : Type 0 where
  pub id_generator : ℕ
  pub stream_sinks : List Stream

abbrev pub new_context : StreamingContext
new_context = record { id_generator = 0; stream_sinks = [] }

-- `generate_id` increments the counter and returns it.
abbrev pub generate_id : StreamingContext → ℕ × StreamingContext
generate_id c = (c.id_generator + 1, record c { id_generator = c.id_generator + 1 })

abbrev pub add_sink : Stream → StreamingContext → StreamingContext
add_sink s c = record c { stream_sinks = c.stream_sinks ++ s ∷ [] }

abbrev new_operator : OperatorClass → StreamOperator
new_operator class = record { class = class; id = none }

abbrev partition_or_forward : Option PartitionClass → PartitionClass
partition_or_forward (some p) = p
partition_or_forward none = forward

-- `Stream.__init__`: a fresh id, the parallelism of the input or 1, and a forward partition unless
-- one is given.
abbrev pub init_stream :
    OperatorClass
    → Option Stream
    → Option PartitionClass
    → StreamingContext
    → Attributes × StreamingContext
init_stream class input partition c =
    let (id, c') = generate_id c in
    (
      record {
        id = id;
        parallelism = elim input [ some s ↦ (attributes s).parallelism | none ↦ 1 ];
        stream_operator = new_operator class;
        partition = partition_or_forward partition;
      },
      c',
    )

abbrev derive :
    OperatorClass → Option PartitionClass → Stream → StreamingContext → Stream × StreamingContext
derive class partition input c =
    let (a, c') = init_stream class (some input) partition c in (data_stream a input, c')

-- `StreamingContext.source`, which `from_values`, `from_collection` and the others call.
unfoldable pub source : StreamingContext → Stream × StreamingContext
source c = let (a, c') = init_stream source_operator none none c in (stream_source a, c')

unfoldable pub map_stream : Stream → StreamingContext → Stream × StreamingContext
map_stream = derive map_operator none

unfoldable pub flat_map : Stream → StreamingContext → Stream × StreamingContext
flat_map = derive flat_map_operator none

unfoldable pub filter : Stream → StreamingContext → Stream × StreamingContext
filter = derive filter_operator none

unfoldable pub key_by : Stream → StreamingContext → Stream × StreamingContext
key_by = derive key_by_operator (some key)

unfoldable pub reduce : Stream → StreamingContext → Stream × StreamingContext
reduce = derive reduce_operator none

unfoldable pub multi_window_agg : Stream → StreamingContext → Stream × StreamingContext
multi_window_agg = derive multi_window_operator none

unfoldable pub join : Stream → Stream → StreamingContext → Stream × StreamingContext
join left right c =
    let (a, c') = init_stream join_operator (some left) none c in (join_stream a left right, c')

unfoldable pub sink : Stream → StreamingContext → Stream × StreamingContext
sink input c =
    let (a, c') = init_stream sink_operator (some input) none c in
    (stream_sink a input, add_sink (stream_sink a input) c')

-- `set_parallelism` changes the stream object; later streams read the new value.
abbrev pub with_parallelism : ℕ → Attributes → Attributes
with_parallelism n a = record a { parallelism = n }

unfoldable pub set_parallelism : ℕ → Stream → Stream
set_parallelism n (stream_source a) = stream_source (with_parallelism n a)
set_parallelism n (data_stream a input) = data_stream (with_parallelism n a) input
set_parallelism n (join_stream a input right) = join_stream (with_parallelism n a) input right
set_parallelism n (union_stream a input others) = union_stream (with_parallelism n a) input others
set_parallelism n (stream_sink a input) = stream_sink (with_parallelism n a) input

-- What `submit` and `execute` do before the job client takes over. A job name of None is made of
-- the clock, so it is an argument.
unfoldable pub compile : String → StreamingContext → Result (JobGraph Runnable)
compile job_name c = optimize (build c.stream_sinks job_name none)
