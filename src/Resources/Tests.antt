-- ===== src/Resources/Tests.antt =====
-- The two strategies on two nodes, for two instances of one operator and one of another.
use volga.Prelude.{
  nat_eq, ℕ, ◌≡◌, refl, true, false, arith, Option, none, some, List, [], ◌∷◌, Result, ok, All,
}
use volga.Prelude.Int.{ℤ, pos}
use volga.Prelude.Dict
use volga.Prelude.Dict.{Dict}
use volga.JobGraph.{VertexType, source, sink}
use volga.ExecutionGraph.{ExecutionId, execution_id_eq, ExecutionVertex, ExecutionGraph}
use volga.Resources.{Resources, Node, Assigned, operator_first, parallelism_first}
use volga.Resources.Nodes.{HasLeft}
use volga.Resources.Exclusive.{operator_first_lem}

abbrev cpus : ℕ → Resources
cpus n = record { num_cpus = some (pos n); num_gpus = none; memory = none }

abbrev node : ℕ → Node
node n = record {
  node_id = "id";
  node_name = "node";
  address = "host";
  is_head = false;
  resources = cpus n;
}

abbrev vertex : ℕ → ℕ → VertexType → ExecutionVertex ℕ
vertex v i kind = record {
  job_vertex = record { vertex_id = v; parallelism = 2; vertex_type = kind; stream_operator = v };
  execution_vertex_index = i;
  parallelism = 2;
  stream_operator = v;
}

abbrev graph : ExecutionGraph ℕ
graph = record {
  job_name = "job";
  execution_vertices_by_id = [];
  execution_edges = [];
  execution_vertices_by_job_vertex =
      (1, vertex 1 0 source ∷ vertex 1 1 source ∷ []) ∷ (2, vertex 2 0 sink ∷ []) ∷ [];
  max_parallelism = 2;
  output_edges = [];
  input_edges = [];
}

abbrev one_cpu : ExecutionId → Option Resources
one_cpu id = some (cpus 1)

abbrev id : ℕ → ℕ → ExecutionId
id v i = record { vertex_id = v; index = i }

abbrev nodes : List Node
nodes = node 2 ∷ node 1 ∷ []

nodes-HasLeft : All HasLeft nodes
nodes-HasLeft = (
  record { cpus = omega arith; gpus = tt; mem = tt },
  (record { cpus = omega arith; gpus = tt; mem = tt }, tt),
)

abbrev by_operator : Assigned
by_operator = record {
  nodes = node 0 ∷ node 0 ∷ [];
  res = (id 1 0, 0) ∷ (id 1 1, 0) ∷ (id 2 0, 1) ∷ [];
}

by_operator_ok : operator_first one_cpu [] nodes graph ≡ ok ((0, 1) ∷ (1, 2) ∷ [], by_operator)
unfolding operator_first volga.Resources.place_operators volga.Resources.place_all_own
    volga.Resources.place_own volga.Resources.find_own Dict.get volga.Resources.has_enough_resources
    volga.Resources.is_enough volga.Resources.allocate_at Dict.has
    volga.Resources.allocate_execution_vertex volga.Resources.acquire_resources
    volga.Resources.acquire Dict.put volga.Prelude.Int.◌-ℤ◌
by_operator_ok = refl

operator_first_lem_example :
    All HasLeft by_operator.nodes
    × (Dict.keys by_operator.res ≡ id 1 0 ∷ id 1 1 ∷ id 2 0 ∷ [])
    × All
        (λ ((id, place) : ExecutionId × ℕ).
          Dict.get place ((0, 1) ∷ (1, 2) ∷ []) ≡ some id.vertex_id)
        by_operator.res
operator_first_lem_example =
    operator_first_lem one_cpu nodes graph {owners = (0, 1) ∷ (1, 2) ∷ []} {a = by_operator}
      nodes-HasLeft by_operator_ok
