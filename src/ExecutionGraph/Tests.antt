-- ===== src/ExecutionGraph/Tests.antt =====
-- The execution graph of a source and a sink, with two instances each.
use volga.Prelude.{nat_eq, ℕ, ◌≡◌, refl, true, none, some, [], ◌∷◌, arith}
use volga.Prelude.Dict
use volga.Partition.{forward}
use volga.JobGraph.{new_job_edge, VertexType, source, sink, JobVertex, JobGraph, has_vertex}
use volga.ExecutionGraph.{ExecutionGraph, from_job_graph}
use volga.ExecutionGraph.Wiring.{wired, instances_of, IsRunnable, from_job_graph-wired}

abbrev vertex : ℕ → VertexType → JobVertex ℕ
vertex i kind = record { vertex_id = i; parallelism = 2; vertex_type = kind; stream_operator = i }

abbrev graph : JobGraph ℕ
graph = record {
  job_name = "job";
  job_config = none;
  job_vertices = vertex 1 source ∷ vertex 2 sink ∷ [];
  job_edges = new_job_edge 1 2 forward none none ∷ [];
}

graph-IsRunnable : IsRunnable graph
unfolding has_vertex
graph-IsRunnable = record {
  some_vertex = λ e. cc;
  distinct = (refl, (refl, tt));
  parallel = (omega arith, (omega arith, tt));
  joined = ((refl, refl), tt);
}

from_job_graph-wired_example :
    (out : ExecutionGraph ℕ) × (from_job_graph graph ≡ some out)
    × (out.execution_edges ≡ wired (instances_of graph.job_vertices) graph.job_edges)
    × ((k : ℕ)
        → has_vertex k graph.job_vertices ≡ true
        → Dict.get k out.execution_vertices_by_job_vertex
          ≡ some (instances_of graph.job_vertices k))
from_job_graph-wired_example = from_job_graph-wired graph graph-IsRunnable
