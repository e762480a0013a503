-- ===== src/ExecutionGraph.antt =====
-- volga/streaming/runtime/core/execution_graph/execution_graph.py: one vertex for each parallel
-- instance of a job vertex, and one edge for each pair of instances that a job edge joins.
-- An execution vertex id is the string `{vertex_id}_{index}` in the source, and the pair here.
pub mod Instances
pub mod Wiring
mod Tests
use Prim.Native.String.{String}
use volga.Prelude.{
  ℕ, zero, suc, ◌+◌, ◌≡◌, ◌↔◌, Bool, true, false, ◌&&◌, Option, none, some, List, [], ◌∷◌, ◌++◌,
  ◌==◌, ltb, length, if◌then◌else◌, Eq, nat_eq, arith,
}
use volga.Prelude.Dict
use volga.Prelude.Dict.{Dict}
use volga.Partition.{PartitionClass, forward, round_robin}
use volga.JobGraph.{JobEdge, VertexType, is_source, JobVertex, JobGraph, get_max_parallelism}
use volga.JobGraph.Optimizer.{is_forward}

pub record ExecutionId : Type 0 where
  pub vertex_id : ℕ
  pub index : ℕ

abbrev pub id_beq : ExecutionId → ExecutionId → Bool
id_beq a b = a.vertex_id == b.vertex_id && a.index == b.index

pub id_beq_iff : (a b : ExecutionId) → (id_beq a b ≡ true) ↔ (a ≡ b)
id_beq_iff a b = (λ h. ground arith, λ h. ground arith)

instance abbrev pub execution_id_eq : Eq ExecutionId
execution_id_eq = record { beq = id_beq; beq_iff = id_beq_iff }

pub record ExecutionVertex (O : Type 0) : Type 0 where
  pub job_vertex : JobVertex O
  pub execution_vertex_index : ℕ
  pub parallelism : ℕ
  pub stream_operator : O

-- `_gen_id`
abbrev pub execution_vertex_id : {O : Type 0} → ExecutionVertex O → ExecutionId
execution_vertex_id v = record {
  vertex_id = v.job_vertex.vertex_id;
  index = v.execution_vertex_index;
}

-- The edge's own id is the pair of the two ids.
pub record ExecutionEdge : Type 0 where
  pub source_execution_vertex : ExecutionId
  pub target_execution_vertex : ExecutionId
  pub partition : PartitionClass

-- The lists `output_edges` and `input_edges` of each vertex object stand in two dicts by its id.
pub record ExecutionGraph (O : Type 0) : Type 0 where
  pub job_name : String
  pub execution_vertices_by_id : Dict ExecutionId (ExecutionVertex O)
  pub execution_edges : List ExecutionEdge
  pub execution_vertices_by_job_vertex : Dict ℕ (List (ExecutionVertex O))
  pub max_parallelism : ℕ
  pub output_edges : Dict ExecutionId (List ExecutionEdge)
  pub input_edges : Dict ExecutionId (List ExecutionEdge)

-- A forward edge to more than one instance becomes round robin.
abbrev pub edge_partition : PartitionClass → ℕ → PartitionClass
edge_partition p targets = if is_forward p && ltb 1 targets then round_robin else p

module _ {O : Type 0} where
  abbrev pub new_execution_vertex : JobVertex O → ℕ → ExecutionVertex O
  new_execution_vertex v i = record {
    job_vertex = v;
    execution_vertex_index = i;
    parallelism = v.parallelism;
    stream_operator = v.stream_operator;
  }

  abbrev pub add_execution_vertex : ExecutionVertex O → ExecutionGraph O → ExecutionGraph O
  add_execution_vertex v g = record g {
    execution_vertices_by_job_vertex =
        Dict.push v.job_vertex.vertex_id v g.execution_vertices_by_job_vertex;
    execution_vertices_by_id = Dict.put (execution_vertex_id v) v g.execution_vertices_by_id;
  }

  -- `for i in range(job_vertex.parallelism)`, with `n` rounds left.
  unfoldable pub create_instances : JobVertex O → ℕ → ℕ → ExecutionGraph O → ExecutionGraph O
  create_instances v i zero g = g
  create_instances v i (suc n) g =
      create_instances v (suc i) n (add_execution_vertex (new_execution_vertex v i) g)

  unfoldable pub create_vertices : List (JobVertex O) → ExecutionGraph O → ExecutionGraph O
  create_vertices [] g = g
  create_vertices (v ∷ vs) g = create_vertices vs (create_instances v 0 v.parallelism g)

  abbrev pub new_execution_edge :
      JobEdge → List (ExecutionVertex O) → ExecutionVertex O → ExecutionVertex O → ExecutionEdge
  new_execution_edge job_edge targets source target = record {
    source_execution_vertex = execution_vertex_id source;
    target_execution_vertex = execution_vertex_id target;
    partition = edge_partition job_edge.partition (length targets);
  }

  abbrev pub add_execution_edge : ExecutionEdge → ExecutionGraph O → ExecutionGraph O
  add_execution_edge e g = record g {
    output_edges = Dict.push e.source_execution_vertex e g.output_edges;
    input_edges = Dict.push e.target_execution_vertex e g.input_edges;
    execution_edges = g.execution_edges ++ e ∷ [];
  }

  -- The innermost loop, over the target instances that are left.
  unfoldable pub connect_targets :
      JobEdge
      → List (ExecutionVertex O)
      → ExecutionVertex O
      → List (ExecutionVertex O)
      → ExecutionGraph O
      → ExecutionGraph O
  connect_targets job_edge targets source [] g = g
  connect_targets job_edge targets source (t ∷ ts) g =
      connect_targets job_edge targets source ts
        (add_execution_edge (new_execution_edge job_edge targets source t) g)

  unfoldable pub connect_sources :
      JobEdge
      → List (ExecutionVertex O)
      → List (ExecutionVertex O)
      → ExecutionGraph O
      → ExecutionGraph O
  connect_sources job_edge targets [] g = g
  connect_sources job_edge targets (s ∷ ss) g =
      connect_sources job_edge targets ss (connect_targets job_edge targets s targets g)

  -- One job edge; a vertex id that is no key raises.
  unfoldable pub connect_edge : JobEdge → ExecutionGraph O → Option (ExecutionGraph O)
  connect_edge e g = elim (Dict.get e.source_vertex_id g.execution_vertices_by_job_vertex) [
    | none ↦ none
    | some sources ↦ elim (Dict.get e.target_vertex_id g.execution_vertices_by_job_vertex) [
      | none ↦ none
      | some targets ↦ some (connect_sources e targets sources g)
    ]
  ]

  unfoldable pub connect_edges : List JobEdge → ExecutionGraph O → Option (ExecutionGraph O)
  connect_edges [] g = some g
  connect_edges (e ∷ es) g = elim (connect_edge e g) [ none ↦ none | some g' ↦ connect_edges es g' ]

  abbrev pub empty_graph : String → ℕ → ExecutionGraph O
  empty_graph job_name max_parallelism = record {
    job_name = job_name;
    execution_vertices_by_id = [];
    execution_edges = [];
    execution_vertices_by_job_vertex = [];
    max_parallelism = max_parallelism;
    output_edges = [];
    input_edges = [];
  }

  unfoldable pub from_job_graph : JobGraph O → Option (ExecutionGraph O)
  from_job_graph jg = elim (get_max_parallelism jg) [
    | none ↦ none
    | some most ↦
        connect_edges jg.job_edges (create_vertices jg.job_vertices (empty_graph jg.job_name most))
  ]

  -- `[v for v in execution_vertices_by_id.values() if v.job_vertex.vertex_type == SOURCE]`
  unfoldable pub source_vertices : List (ExecutionVertex O) → List (ExecutionVertex O)
  source_vertices [] = []
  source_vertices (v ∷ vs) =
      if is_source v.job_vertex.vertex_type then v ∷ source_vertices vs else source_vertices vs

  unfoldable pub non_source_vertices : List (ExecutionVertex O) → List (ExecutionVertex O)
  non_source_vertices [] = []
  non_source_vertices (v ∷ vs) =
      if is_source v.job_vertex.vertex_type
      then non_source_vertices vs
      else v ∷ non_source_vertices vs
