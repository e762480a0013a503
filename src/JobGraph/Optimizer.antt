-- ===== src/JobGraph/Optimizer.antt =====
-- volga/streaming/api/job_graph/job_graph_optimizer.py: groups the operators of a job graph into
-- chains, each of which becomes one vertex.
pub mod Steps
pub mod Total
pub mod Chains
pub mod Edges
pub mod Output
mod Tests
use volga.Prelude.{
  nat_eq, ℕ, zero, suc, ◌+◌, Bool, true, false, not, ◌||◌, Option, none, some, List, [], ◌∷◌, ◌++◌,
  ◌==◌, ltb, leb, length, if◌then◌else◌,
}
use volga.Prelude.Dict
use volga.Prelude.Dict.{Dict}
use volga.Partition.{PartitionClass, forward, round_robin}
use volga.JobGraph.{
  JobEdge, new_job_edge, JobVertex, JobGraph, filter_edges, get_vertex_output_edges,
  get_vertex_input_edges, get_source_vertices,
}
use volga.JobGraph.Operator.{
  StreamOperator, Runnable, single, new_chained_operator, set_runnable_id,
}
use volga.JobGraph.Builder.{Graph}

abbrev pub Vertex : Type 0
Vertex = JobVertex StreamOperator

-- The attributes that the walk changes. Vertex objects are told apart by their ids.
pub record State : Type 0 where
  pub visited : List ℕ
  pub chain_set : Dict ℕ (List Vertex)
  pub tail_edges_map : Dict ℕ (List JobEdge)

-- A missing key, a failed assertion, or a recursion deeper than the fuel.
pub data Result {ℓ} (A : Type ℓ) : Type ℓ where
  ok : A → Result A
  key_error : ℕ → Result A
  failed_assertion : Result A
  too_deep : Result A

infixl 5 ◌>>=◌
abbrev pub ◌>>=◌ {ℓ κ} : {S : Type ℓ} {T : Type κ} → Result S → (S → Result T) → Result T
too_deep >>= next = too_deep
failed_assertion >>= next = failed_assertion
key_error k >>= next = key_error k
ok value >>= next = next value

-- `d[k]` of the vertex map.
abbrev pub find : ℕ → Dict ℕ Vertex → Result Vertex
find k d = elim (Dict.get k d) [ some v ↦ ok v | none ↦ key_error k ]

map_vertices : List Vertex → Dict ℕ Vertex → Dict ℕ Vertex
map_vertices [] d = d
map_vertices (v ∷ vs) d = map_vertices vs (Dict.put v.vertex_id v d)

-- `_vertex_map`
unfoldable pub vertex_map : Graph → Dict ℕ Vertex
unfolding map_vertices
vertex_map g = map_vertices g.job_vertices []

abbrev pub is_forward : PartitionClass → Bool
is_forward forward = true
is_forward _ = false

unfoldable pub contains : ℕ → List ℕ → Bool
contains i [] = false
contains i (j ∷ js) = if j == i then true else contains i js

unfoldable pub can_chain : Graph → Vertex → Vertex → JobEdge → Bool
can_chain g src target edge =
    if not (src.parallelism == target.parallelism)
    then false
    else if ltb 1 (length (get_vertex_input_edges target.vertex_id g))
        || ltb 1 (length (get_vertex_output_edges src.vertex_id g))
    then false
    else is_forward edge.partition

abbrev pub add_vertex_to_chain_set : ℕ → Vertex → State → State
add_vertex_to_chain_set root_id target st = record st {
  chain_set = Dict.push root_id target st.chain_set;
}

-- The edge that `add_tail_edge` files.
abbrev pub tail_edge : JobEdge → Option ℕ → ℕ → JobEdge
tail_edge output_edge src_operator_id target_operator_id =
    record (new_job_edge output_edge.source_vertex_id output_edge.target_vertex_id
      output_edge.partition src_operator_id (some target_operator_id)) {
        is_join_right_edge = output_edge.is_join_right_edge;
      }

abbrev pub add_tail_edge : ℕ → JobEdge → Option ℕ → ℕ → State → State
add_tail_edge head_vertex_id output_edge src_operator_id target_operator_id st = record st {
  tail_edges_map =
      Dict.push head_vertex_id (tail_edge output_edge src_operator_id target_operator_id)
        st.tail_edges_map;
}

abbrev pub visit : Vertex → State → State
visit v st = record st { visited = v.vertex_id ∷ st.visited }

-- The body of the loop over the output edges; `again` is the recursive call.
unfoldable pub divide_edge :
    (ℕ → Vertex → State → Result State) → Graph → ℕ → Vertex → JobEdge → State → Result State
divide_edge again g head_vertex_id src_vertex edge st = do
  target_vertex ← find edge.target_vertex_id (vertex_map g)
  let tailed =
      add_tail_edge head_vertex_id edge src_vertex.stream_operator.id edge.target_operator_id st
  if can_chain g src_vertex target_vertex edge
      then again head_vertex_id target_vertex
          (add_vertex_to_chain_set head_vertex_id target_vertex st)
      else if contains target_vertex.vertex_id st.visited
      then ok tailed
      else again edge.target_vertex_id target_vertex
          (add_vertex_to_chain_set edge.target_vertex_id target_vertex (visit target_vertex tailed))

unfoldable pub divide_edges :
    (ℕ → Vertex → State → Result State) → Graph → ℕ → Vertex → List JobEdge → State → Result State
divide_edges again g head_vertex_id src_vertex [] st = ok st
divide_edges again g head_vertex_id src_vertex (edge ∷ edges) st = do
  next ← divide_edge again g head_vertex_id src_vertex edge st
  divide_edges again g head_vertex_id src_vertex edges next

-- `divide_vertices`, with fuel for the depth of the recursion.
unfoldable pub divide_vertices : ℕ → Graph → ℕ → Vertex → State → Result State
divide_vertices zero g head_vertex_id src_vertex st = too_deep
divide_vertices (suc fuel) g head_vertex_id src_vertex st =
    divide_edges (divide_vertices fuel g) g head_vertex_id src_vertex
      (get_vertex_output_edges src_vertex.vertex_id g) st

abbrev pub change_partition : PartitionClass → PartitionClass
change_partition forward = round_robin
change_partition p = p

abbrev pub reset_edge : ℕ → JobEdge → JobEdge
reset_edge head_vertex_id e =
    record (new_job_edge head_vertex_id e.target_vertex_id (change_partition e.partition)
      (some e.source_operator_id) (some e.target_operator_id)) {
        is_join_right_edge = e.is_join_right_edge;
      }

unfoldable pub new_edges : Dict ℕ (List JobEdge) → List JobEdge
new_edges [] = []
new_edges ((head, []) ∷ d) = new_edges d
new_edges ((head, e ∷ es) ∷ d) = reset_edge head e ∷ new_edges ((head, es) ∷ d)

-- The stable sort by a Boolean key: those without the flag, then those with it.
unfoldable pub sort_by_join_right : List JobEdge → List JobEdge
sort_by_join_right es =
    filter_edges (λ e. not e.is_join_right_edge) es ++ filter_edges (λ e. e.is_join_right_edge) es

unfoldable pub reset_edges : State → List JobEdge
unfolding new_edges sort_by_join_right
reset_edges st = sort_by_join_right (new_edges st.tail_edges_map)

-- `[self._vertex_map[v.vertex_id].stream_operator for v in tree_list]`
unfoldable pub operators_of : Graph → List Vertex → Result (List StreamOperator)
operators_of g [] = ok []
operators_of g (v ∷ vs) = do
  found ← find v.vertex_id (vertex_map g)
  rest ← operators_of g vs
  ok (found.stream_operator ∷ rest)

abbrev pub with_operator : Vertex → Runnable → JobVertex Runnable
with_operator v o = record {
  vertex_id = v.vertex_id;
  parallelism = v.parallelism;
  vertex_type = v.vertex_type;
  stream_operator = o;
}

unfoldable pub merge_chain : Graph → List Vertex → Result (JobVertex Runnable)
merge_chain g [] = failed_assertion
merge_chain g (head ∷ []) = ok (with_operator head (single head.stream_operator))
merge_chain g (head ∷ next ∷ rest) = do
  operators ← operators_of g (head ∷ next ∷ rest)
  elim (new_chained_operator operators) [
    | some o ↦ ok (with_operator head (set_runnable_id head.vertex_id o))
    | none ↦ failed_assertion
  ]

unfoldable pub merge_chains : Graph → Dict ℕ (List Vertex) → Result (List (JobVertex Runnable))
merge_chains g [] = ok []
merge_chains g ((head, chain) ∷ d) = do
  merged ← merge_chain g chain
  rest ← merge_chains g d
  ok (merged ∷ rest)

unfoldable pub divide_sources : ℕ → Graph → List Vertex → State → Result State
divide_sources fuel g [] st = ok st
divide_sources fuel g (v ∷ vs) st = do
  next ← divide_vertices fuel g v.vertex_id v (add_vertex_to_chain_set v.vertex_id v st)
  divide_sources fuel g vs next

abbrev pub start : State
start = record { visited = []; chain_set = []; tail_edges_map = [] }

max_id : List Vertex → ℕ
max_id [] = 0
max_id (v ∷ vs) = let m = max_id vs in if leb v.vertex_id m then m else v.vertex_id

-- More than the depth of any path along which the ids grow.
unfoldable pub depth_bound : Graph → ℕ
unfolding max_id
depth_bound g = suc (max_id g.job_vertices)

unfoldable pub divide : Graph → Result State
divide g = divide_sources (depth_bound g) g (get_source_vertices g) start

unfoldable pub optimize : Graph → Result (JobGraph Runnable)
optimize g = do
  st ← divide g
  vertices ← merge_chains g st.chain_set
  ok (record {
    job_name = g.job_name;
    job_config = g.job_config;
    job_vertices = vertices;
    job_edges = reset_edges st;
  })
