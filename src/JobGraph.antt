-- ===== src/JobGraph.antt =====
-- volga/streaming/api/job_graph/job_graph.py: the logical graph of operators. `O` is what a vertex
-- runs: one operator before the optimizer, a chain of operators after it.
pub mod Operator
pub mod Builder
pub mod Optimizer
use Prim.Native.String.{String}
use volga.Prelude.{
  ℕ, Bool, true, false, ◌&&◌, Option, none, some, List, [], ◌∷◌, ◌++◌, ◌==◌, leb, if◌then◌else◌,
}
use volga.Prelude.Dict.{Dict}
use volga.Partition.{PartitionClass}

pub record JobEdge : Type 0 where
  pub source_vertex_id : ℕ
  pub target_vertex_id : ℕ
  pub source_operator_id : ℕ
  pub target_operator_id : ℕ
  pub partition : PartitionClass
  pub is_join_right_edge : Bool

abbrev default_to : Option ℕ → ℕ → ℕ
default_to (some a) b = a
default_to none b = b

-- `JobEdge(source_vertex_id, target_vertex_id, partition, source_operator_id, target_operator_id)`
abbrev pub new_job_edge : ℕ → ℕ → PartitionClass → Option ℕ → Option ℕ → JobEdge
new_job_edge source target partition source_operator target_operator = record {
  source_vertex_id = source;
  target_vertex_id = target;
  source_operator_id = default_to source_operator source;
  target_operator_id = default_to target_operator target;
  partition = partition;
  is_join_right_edge = false;
}

pub data VertexType : Type 0 where
  source process sink union join : VertexType

abbrev pub is_source : VertexType → Bool
is_source source = true
is_source _ = false

pub record JobVertex (O : Type 0) : Type 0 where
  pub vertex_id : ℕ
  pub parallelism : ℕ
  pub vertex_type : VertexType
  pub stream_operator : O

pub record JobGraph (O : Type 0) : Type 0 where
  pub job_name : String
  pub job_config : Option (Dict String String)
  pub job_vertices : List (JobVertex O)
  pub job_edges : List JobEdge

module _ {O : Type 0} where
  -- `filter` on a list, by a test.
  unfoldable pub has_vertex : ℕ → List (JobVertex O) → Bool
  has_vertex i [] = false
  has_vertex i (v ∷ vs) = if v.vertex_id == i then true else has_vertex i vs

  unfoldable pub add_vertex_if_not_exists : JobVertex O → JobGraph O → JobGraph O
  unfolding has_vertex
  add_vertex_if_not_exists v g =
      if has_vertex v.vertex_id g.job_vertices
      then g
      else record g { job_vertices = g.job_vertices ++ v ∷ [] }

unfoldable pub has_edge : ℕ → ℕ → List JobEdge → Bool
has_edge s t [] = false
has_edge s t (e ∷ es) =
    if e.source_vertex_id == s && e.target_vertex_id == t then true else has_edge s t es

unfoldable pub filter_edges : (JobEdge → Bool) → List JobEdge → List JobEdge
filter_edges p [] = []
filter_edges p (e ∷ es) = if p e then e ∷ filter_edges p es else filter_edges p es

module _ {O : Type 0} where
  unfoldable pub add_edge_if_not_exists : JobEdge → JobGraph O → JobGraph O
  unfolding has_edge
  add_edge_if_not_exists e g =
      if has_edge e.source_vertex_id e.target_vertex_id g.job_edges
      then g
      else record g { job_edges = g.job_edges ++ e ∷ [] }

  unfoldable pub get_vertex_output_edges : ℕ → JobGraph O → List JobEdge
  get_vertex_output_edges i g = filter_edges (λ e. e.source_vertex_id == i) g.job_edges

  unfoldable pub get_vertex_input_edges : ℕ → JobGraph O → List JobEdge
  get_vertex_input_edges i g = filter_edges (λ e. e.target_vertex_id == i) g.job_edges

  unfoldable pub filter_sources : List (JobVertex O) → List (JobVertex O)
  filter_sources [] = []
  filter_sources (v ∷ vs) =
      if is_source v.vertex_type then v ∷ filter_sources vs else filter_sources vs

  unfoldable pub get_source_vertices : JobGraph O → List (JobVertex O)
  unfolding filter_sources
  get_source_vertices g = filter_sources g.job_vertices

  unfoldable pub max_from : ℕ → List (JobVertex O) → ℕ
  max_from best [] = best
  max_from best (v ∷ vs) = max_from (if leb v.parallelism best then best else v.parallelism) vs

  -- `max` of no vertices raises: `none`.
  unfoldable pub get_max_parallelism : JobGraph O → Option ℕ
  unfolding max_from
  get_max_parallelism g = elim g.job_vertices [
    | [] ↦ none
    | v ∷ vs ↦ some (max_from v.parallelism vs)
  ]
