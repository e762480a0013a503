-- ===== src/JobGraph/Optimizer/Tests.antt =====
-- The chains of a small graph: a source, a map that is chained to it, and a sink behind a shuffle.
use volga.Prelude.{ℕ, ◌≡◌, refl, none, some, [], ◌∷◌, All, arith}
use volga.Partition.{forward, key}
use volga.JobGraph.{new_job_edge, VertexType, source, process, sink, JobGraph, has_vertex}
use volga.JobGraph.Operator.{OperatorClass, Runnable, source_operator, map_operator, sink_operator}
use volga.JobGraph.Builder.{Graph}
use volga.JobGraph.Optimizer.{Vertex, State, ok, divide, optimize}
use volga.JobGraph.Optimizer.Total.{Ascends, divide-Ends}
use volga.JobGraph.Optimizer.Chains.{IsLinked, divide-IsLinked}
use volga.JobGraph.Optimizer.Output.{IsOptimized, optimize-IsOptimized}

abbrev vertex : ℕ → VertexType → OperatorClass → Vertex
vertex i kind class = record {
  vertex_id = i;
  parallelism = 2;
  vertex_type = kind;
  stream_operator = record { class = class; id = some i };
}

abbrev graph : Graph
graph = record {
  job_name = "job";
  job_config = none;
  job_vertices =
      vertex 1 source source_operator
      ∷ vertex 2 process map_operator
      ∷ vertex 3 sink sink_operator
      ∷ [];
  job_edges = new_job_edge 1 2 forward none none ∷ new_job_edge 2 3 key none none ∷ [];
}

graph-Ascends : All (Ascends graph) graph.job_edges
unfolding has_vertex
graph-Ascends = (
  record { order = omega arith; target = refl },
  (record { order = omega arith; target = refl }, tt),
)

divide-Ends_example : (t : State) × (divide graph ≡ ok t)
divide-Ends_example = divide-Ends graph graph-Ascends

divided : (t : State) × (divide graph ≡ ok t)
divided = divide-Ends graph graph-Ascends

divide-IsLinked_example : All (IsLinked graph) divided.0.chain_set
divide-IsLinked_example = divide-IsLinked graph divided.0 divided.1

optimize-IsOptimized_example :
    (out : JobGraph Runnable) × (optimize graph ≡ ok out) × IsOptimized out
optimize-IsOptimized_example = optimize-IsOptimized graph graph-Ascends
