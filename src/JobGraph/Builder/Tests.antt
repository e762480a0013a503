-- ===== src/JobGraph/Builder/Tests.antt =====
-- The graphs of a few streams.
use volga.Prelude.{ℕ, ◌≡◌, ◌≢◌, refl, true, false, none, List, [], ◌∷◌, All, arith, inl, inr}
use volga.Partition.{forward}
use volga.JobGraph.{has_vertex, has_edge}
use volga.JobGraph.Operator.{
  OperatorClass, source_operator, map_operator, union_operator, sink_operator,
}
use volga.JobGraph.Builder.{
  Attributes, attributes, Stream, no_more, one_more, stream_source, data_stream, union_stream,
  stream_sink, Graph, process_stream, build,
}
use volga.JobGraph.Builder.Distinct.{IsDistinct, build-IsDistinct}
use volga.JobGraph.Builder.Closed.{Joins, build-Joins}
use volga.JobGraph.Builder.Unions.{Visits, union_drops_stream}

abbrev numbered : ℕ → OperatorClass → Attributes
numbered i class = record {
  id = i;
  parallelism = 1;
  stream_operator = record { class = class; id = none };
  partition = forward;
}

abbrev mapped : Stream
mapped = data_stream (numbered 2 map_operator) (stream_source (numbered 1 source_operator))

-- Two sinks that share a stream.
abbrev two_sinks : List Stream
two_sinks =
    stream_sink (numbered 3 sink_operator) mapped
    ∷ stream_sink (numbered 4 sink_operator) mapped
    ∷ []

build-IsDistinct_example : IsDistinct (build two_sinks "job" none)
build-IsDistinct_example = build-IsDistinct two_sinks "job" none

build-Joins_example :
    All (Joins (build two_sinks "job" none)) (build two_sinks "job" none).job_edges
build-Joins_example = build-Joins two_sinks "job" none (tt, (tt, tt))

abbrev other_source : Stream
other_source = stream_source (numbered 5 source_operator)

abbrev no_graph : Graph
no_graph = record { job_name = "job"; job_config = none; job_vertices = []; job_edges = [] }

not_met : ¬ Visits 5 mapped
not_met (inl same) = absurd (omega (arith, same))
not_met (inr same) = absurd (omega (arith, same))

other-ne : (numbered 6 union_operator).id ≢ (attributes other_source).id
other-ne same = absurd (omega (arith, same))

absent : has_vertex 5 no_graph.job_vertices ≡ false
unfolding has_vertex
absent = refl

union_drops_stream_example :
    let built : Graph =
      process_stream
        (union_stream (numbered 6 union_operator) mapped (one_more other_source no_more))
        no_graph in
    (has_edge 5 6 built.job_edges ≡ true) × (has_vertex 5 built.job_vertices ≡ false)
union_drops_stream_example =
    union_drops_stream (numbered 6 union_operator) mapped other_source no_more no_graph other-ne
      not_met absent
