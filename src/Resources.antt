-- ===== src/Resources.antt =====
-- volga/streaming/runtime/master/resource_manager: resource_manager.py and node_assign_strategy.py.
-- Amounts are whole numbers of the smallest unit that the cluster counts in. A node is named by its
-- place in the list of nodes, which stays the same; the resources of a vertex are an argument. The
-- sums that only stand in the text of an error are left out.
pub mod Nodes
pub mod Exclusive
pub mod Rounds
mod Tests
use Prim.Native.String.{String}
use volga.Prelude.{
  nat_eq, ℕ, zero, suc, ◌+◌, ◌-◌, ◌==◌, Bool, true, false, ◌&&◌, ◌||◌, not, Option, none, some,
  List, [], ◌∷◌, length, drop, set, get_elem?, Result, ok, raised, ◌>>=◌, if◌then◌else◌, ltb,
}
use volga.Prelude.Int.{ℤ, pos, negsuc, ◌+ℤ◌, ◌-ℤ◌, ltb_ℤ}
use volga.Prelude.Dict
use volga.Prelude.Dict.{Dict}
use volga.JobGraph.{JobVertex}
use volga.ExecutionGraph.{
  ExecutionId, execution_id_eq, ExecutionVertex, execution_vertex_id, ExecutionGraph,
}

pub record Resources : Type 0 where
  pub num_cpus : Option ℤ
  pub num_gpus : Option ℤ
  pub memory : Option ℤ

abbrev pub no_resources : Resources
no_resources = record { num_cpus = none; num_gpus = none; memory = none }

-- One amount: `assert self.x is not None` and the subtraction, where something is allocated.
unfoldable pub acquire : Option ℤ → Option ℤ → Result (Option ℤ)
acquire available none = ok available
acquire none (some allocated) = raised
acquire (some available) (some allocated) = ok (some (available -ℤ allocated))

unfoldable pub acquire_resources : Resources → Resources → Result Resources
acquire_resources self allocated = do
  cpus ← acquire self.num_cpus allocated.num_cpus
  memory ← acquire self.memory allocated.memory
  gpus ← acquire self.num_gpus allocated.num_gpus
  ok (record { num_cpus = cpus; num_gpus = gpus; memory = memory })

-- One amount that is given back.
unfoldable pub give_back : Option ℤ → Option ℤ → Option ℤ
give_back available none = available
give_back none (some released) = some released
give_back (some available) (some released) = some (available +ℤ released)

unfoldable pub release_resources : Resources → Resources → Resources
release_resources self released = record {
  num_cpus = give_back self.num_cpus released.num_cpus;
  num_gpus = give_back self.num_gpus released.num_gpus;
  memory = give_back self.memory released.memory;
}

unfoldable pub combine_into : Resources → List Resources → Resources
combine_into res [] = res
combine_into res (r ∷ rs) = combine_into (release_resources res r) rs

unfoldable pub combine : List Resources → Resources
combine resources = combine_into no_resources resources

pub record Node : Type 0 where
  pub node_id : String
  pub node_name : String
  pub address : String
  pub is_head : Bool
  pub resources : Resources

unfoldable pub allocate_execution_vertex : Option Resources → Node → Result Node
allocate_execution_vertex none node = raised
allocate_execution_vertex (some vertex_resources) node = do
  left ← acquire_resources node.resources vertex_resources
  ok (record node { resources = left })

-- `node_res.x is not None and required.x <= node_res.x`, where something is required.
unfoldable pub is_enough : Option ℤ → Option ℤ → Bool
is_enough none available = true
is_enough (some required) none = false
is_enough (some required) (some available) = not (ltb_ℤ available required)

unfoldable pub has_enough_resources : Resources → Node → Bool
has_enough_resources required node =
    is_enough required.num_cpus node.resources.num_cpus
    && is_enough required.memory node.resources.memory
    && is_enough required.num_gpus node.resources.num_gpus

-- What an assignment has changed: the nodes, and the place of the node of each vertex.
pub record Assigned : Type 0 where
  pub nodes : List Node
  pub res : Dict ExecutionId ℕ

-- `assert id not in res`, the allocation, and the entry.
unfoldable pub allocate_at : ExecutionId → Option Resources → ℕ → Node → Assigned → Result Assigned
allocate_at id resources place node a =
    let allocated : Result Assigned = (do
      node' ← allocate_execution_vertex resources node
      ok (record { nodes = set a.nodes place node'; res = Dict.put id place a.res })) in
    if Dict.has id a.res then raised else allocated

-- `ParallelismFirst._find_matched_node`: from the current index on, and the index stays there.
unfoldable pub find_from : Resources → List Node → ℕ → ℕ × Option Node
find_from required [] index = (index, none)
find_from required (node ∷ nodes) index =
    if has_enough_resources required node
    then (index, some node)
    else find_from required nodes (index + 1)

-- `OperatorFirst._find_matched_node`: the first node with room that no other operator has. The dict
-- from nodes to operators goes by the node's place.
unfoldable pub find_own : ℕ → Resources → List Node → ℕ → Dict ℕ ℕ → Option (ℕ × Node)
find_own operator_id required [] i node_to_operator = none
find_own operator_id required (node ∷ nodes) i node_to_operator =
    if (Dict.get_or i operator_id node_to_operator == operator_id)
      && has_enough_resources required node
    then some (i, node)
    else find_own operator_id required nodes (i + 1) node_to_operator

module _ {O : Type 0} (resources_of : ExecutionId → Option Resources) where
  -- `assert exec_vertex.resources is not None`, and the node that the index stops at.
  unfoldable pub place_by_index : ExecutionVertex O → ℕ → Assigned → Result (ℕ × Assigned)
  place_by_index v index a = elim (resources_of (execution_vertex_id v)) [
    | none ↦ raised
    | some required ↦
        let (index', found) = find_from required (drop index a.nodes) index in
        elim found [
          | none ↦ raised
          | some node ↦ do
            a' ← allocate_at (execution_vertex_id v) (some required) index' node a
            ok (index', a')
        ]
  ]

  -- One round of the outer loop: the `i`-th instance of each job vertex that has one.
  unfoldable pub place_instances :
      ℕ → List (List (ExecutionVertex O)) → ℕ → Assigned → Result (ℕ × Assigned)
  place_instances i [] index a = ok (index, a)
  place_instances i (vertices ∷ rest) index a = elim (get_elem? vertices i) [
    | none ↦ place_instances i rest index a
    | some v ↦ do (index', a') ← place_by_index v index a; place_instances i rest index' a'
  ]

  unfoldable pub place_rounds :
      ℕ → ℕ → List (List (ExecutionVertex O)) → ℕ → Assigned → Result (ℕ × Assigned)
  place_rounds i zero vertices index a = ok (index, a)
  place_rounds i (suc rounds) vertices index a = do
    (index', a') ← place_instances i vertices index a
    place_rounds (suc i) rounds vertices index' a'

  -- `ParallelismFirst.assign_resources`, from the index where the strategy stands.
  unfoldable pub parallelism_first : ℕ → List Node → ExecutionGraph O → Result (ℕ × Assigned)
  parallelism_first curr_node_index nodes graph =
      place_rounds 0 graph.max_parallelism (Dict.values graph.execution_vertices_by_job_vertex)
        curr_node_index (record { nodes = nodes; res = [] })

  unfoldable pub place_own : ExecutionVertex O → Dict ℕ ℕ → Assigned → Result (Dict ℕ ℕ × Assigned)
  place_own v node_to_operator a = elim (resources_of (execution_vertex_id v)) [
    | none ↦ raised
    | some required ↦ elim (find_own v.job_vertex.vertex_id required a.nodes 0 node_to_operator) [
      | none ↦ raised
      | some (i, node) ↦ do
        a' ← allocate_at (execution_vertex_id v) (some required) i node a
        ok (Dict.put i v.job_vertex.vertex_id node_to_operator, a')
    ]
  ]

  unfoldable pub place_all_own :
      List (ExecutionVertex O) → Dict ℕ ℕ → Assigned → Result (Dict ℕ ℕ × Assigned)
  place_all_own [] owners a = ok (owners, a)
  place_all_own (v ∷ vs) owners a = do
    (owners', a') ← place_own v owners a
    place_all_own vs owners' a'

  unfoldable pub place_operators :
      List (List (ExecutionVertex O)) → Dict ℕ ℕ → Assigned → Result (Dict ℕ ℕ × Assigned)
  place_operators [] owners a = ok (owners, a)
  place_operators (vertices ∷ rest) owners a = do
    (owners', a') ← place_all_own vertices owners a
    place_operators rest owners' a'

  -- `OperatorFirst.assign_resources`
  unfoldable pub operator_first :
      Dict ℕ ℕ → List Node → ExecutionGraph O → Result (Dict ℕ ℕ × Assigned)
  operator_first node_to_operator nodes graph =
      place_operators (Dict.values graph.execution_vertices_by_job_vertex) node_to_operator
        (record { nodes = nodes; res = [] })
