-- ===== src/JobGraph/Builder.antt =====
-- volga/streaming/api/job_graph/job_graph_builder.py, and the streams of
-- volga/streaming/api/stream that it walks.
pub mod Distinct
pub mod Closed
pub mod Unions
pub mod Ascending
mod Tests
use Prim.Native.String.{String}
use volga.Prelude.{ℕ, Bool, true, Option, none, some, List, [], ◌∷◌}
use volga.Prelude.Dict.{Dict}
use volga.Partition.{PartitionClass}
use volga.JobGraph.{
  JobEdge, new_job_edge, VertexType, source, process, sink, union, join, JobVertex, JobGraph,
  add_vertex_if_not_exists, add_edge_if_not_exists,
}
use volga.JobGraph.Operator.{StreamOperator, set_id}

-- The attributes that `Stream.__init__` sets.
pub record Attributes : Type 0 where
  pub id : ℕ
  pub parallelism : ℕ
  pub stream_operator : StreamOperator
  pub partition : PartitionClass

-- A stream object by its class, with the streams that it reads.
mutual
  pub data Stream : Type 0 where
    stream_source : Attributes → Stream
    data_stream : Attributes → (input : Stream) → Stream
    join_stream : Attributes → (input right : Stream) → Stream
    union_stream : Attributes → (input : Stream) (others : Streams) → Stream
    stream_sink : Attributes → (input : Stream) → Stream

  pub data Streams : Type 0 where
    no_more : Streams
    one_more : Stream → Streams → Streams

abbrev pub attributes : Stream → Attributes
attributes (stream_source a) = a
attributes (data_stream a _) = a
attributes (join_stream a _ _) = a
attributes (union_stream a _ _) = a
attributes (stream_sink a _) = a

abbrev pub Graph : Type 0
Graph = JobGraph StreamOperator

-- `JobEdge(parent.id, vertex_id, parent.partition)`
abbrev pub edge_to : ℕ → Stream → JobEdge
edge_to target parent =
    new_job_edge (attributes parent).id target (attributes parent).partition none none

abbrev pub right_edge_to : ℕ → Stream → JobEdge
right_edge_to target right = record (edge_to target right) { is_join_right_edge = true }

abbrev pub new_job_vertex : Attributes → VertexType → JobVertex StreamOperator
new_job_vertex a kind = record {
  vertex_id = a.id;
  parallelism = a.parallelism;
  vertex_type = kind;
  stream_operator = set_id a.id a.stream_operator;
}

-- The loop over `stream.union_streams`: each round adds the edge from that stream, and then calls
-- `again`, which is the call for the union's own input stream.
unfoldable pub add_union_edges : (Graph → Graph) → ℕ → Streams → Graph → Graph
add_union_edges again target no_more g = g
add_union_edges again target (one_more other others) g =
    add_union_edges again target others (again (add_edge_if_not_exists (edge_to target other) g))

-- `_process_stream`
unfoldable pub process_stream : Stream → Graph → Graph
process_stream (stream_source a) g = add_vertex_if_not_exists (new_job_vertex a source) g
process_stream (stream_sink a input) g =
    let g1 : Graph = process_stream input (add_edge_if_not_exists (edge_to a.id input) g) in
    add_vertex_if_not_exists (new_job_vertex a sink) g1
process_stream (data_stream a input) g =
    let g1 : Graph = process_stream input (add_edge_if_not_exists (edge_to a.id input) g) in
    add_vertex_if_not_exists (new_job_vertex a process) g1
process_stream (union_stream a input others) g =
    let g1 : Graph = process_stream input (add_edge_if_not_exists (edge_to a.id input) g) in
    let g2 : Graph = add_union_edges (λ h. process_stream input h) a.id others g1 in
    add_vertex_if_not_exists (new_job_vertex a union) g2
process_stream (join_stream a input right) g =
    let g1 : Graph = process_stream input (add_edge_if_not_exists (edge_to a.id input) g) in
    let g2 : Graph = process_stream right (add_edge_if_not_exists (right_edge_to a.id right) g1) in
    add_vertex_if_not_exists (new_job_vertex a join) g2

process_all : List Stream → Graph → Graph
process_all [] g = g
process_all (s ∷ ss) g = process_all ss (process_stream s g)

-- `JobGraphBuilder(stream_sinks, job_name, job_config).build()`; a name that is `None` is made of
-- the clock, so the name is an argument here.
unfoldable pub build : List Stream → String → Option (Dict String String) → Graph
unfolding process_all
build stream_sinks job_name job_config =
    process_all stream_sinks
      (record { job_name = job_name; job_config = job_config; job_vertices = []; job_edges = [] })
