-- ===== src/JobGraph/Optimizer/Chains.antt =====
-- What the walk of job_graph_optimizer.py keeps true of its state, by induction on its steps.
use volga.Prelude.{
  nat_eq, ℕ, ◌≡◌, refl, subst, inl, inr, true, some, List, [], ◌∷◌, ◌++◌, In, In-append_left, All,
  All-append, All-map, length, ◌≤◌, arith,
}
use volga.Prelude.Dict
use volga.JobGraph.{JobEdge, get_vertex_output_edges, get_vertex_input_edges, get_source_vertices}
use volga.Partition.{PartitionClass, forward, broadcast, key, round_robin, simple}
use volga.JobGraph.Builder.{Graph}
use volga.JobGraph.Optimizer.{
  Vertex, State, ok, vertex_map, can_chain, is_forward, add_vertex_to_chain_set, visit,
  divide_vertices, divide_sources, divide, start, depth_bound,
}
use volga.JobGraph.Optimizer.Total.{vertex_map-OwnId}
use volga.JobGraph.Optimizer.Steps.{
  tail_of, Step, extend, revisit, open_chain, Reach, here, next, both_ok, ok-injective,
  push-InChain_self, divide_vertices-Reach,
}

-- What lets a vertex join the chain of another one: the same parallelism, one input and one output at
-- most, and a forward partition between them.
pub record IsChainable (g : Graph) (src v : Vertex) (edge : JobEdge) : Type 0 where
  pub same_parallelism : src.parallelism ≡ v.parallelism
  pub one_input : length (get_vertex_input_edges v.vertex_id g) ≤ 1
  pub one_output : length (get_vertex_output_edges src.vertex_id g) ≤ 1
  pub forwards : edge.partition ≡ forward

is_forward-eq : (p : PartitionClass) → is_forward p ≡ true → p ≡ forward
is_forward-eq forward h = refl
is_forward-eq broadcast h = cc
is_forward-eq key h = cc
is_forward-eq round_robin h = cc
is_forward-eq simple h = cc

can_chain-IsChainable :
    (g : Graph) (src v : Vertex) (edge : JobEdge)
    → can_chain g src v edge ≡ true
    → IsChainable g src v edge
unfolding can_chain
can_chain-IsChainable g src v edge h =
    let ins = length (get_vertex_input_edges v.vertex_id g) in
    let outs = length (get_vertex_output_edges src.vertex_id g) in
    let flat : (src.parallelism ≡ v.parallelism)
        × ((ins ≤ 1) × ((outs ≤ 1) × (is_forward edge.partition ≡ true))) =
      ground arith in
    record {
      same_parallelism = flat.0;
      one_input = flat.1.0;
      one_output = flat.1.1.0;
      forwards = is_forward-eq edge.partition flat.1.1.1;
    }

-- A vertex is in a chain as its head, or because an edge from another vertex of the chain allowed it.
pub data Linked (g : Graph) (chain : List Vertex) (head : ℕ) (v : Vertex) : Type 0 where
  heads : v.vertex_id ≡ head → Linked g chain head v
  follows :
      (src : Vertex) (edge : JobEdge)
      → In src chain
      → In edge (get_vertex_output_edges src.vertex_id g)
      → Dict.get edge.target_vertex_id (vertex_map g) ≡ some v
      → IsChainable g src v edge
      → Linked g chain head v

abbrev pub IsLinked : Graph → ℕ × List Vertex → Type 0
IsLinked g (head, chain) = All (Linked g chain head) chain

Linked-append :
    (g : Graph) (chain more : List Vertex) (head : ℕ) (v : Vertex)
    → Linked g chain head v
    → Linked g (chain ++ more) head v
Linked-append g chain more head v (heads e) = heads e
Linked-append g chain more head v (follows src edge i out found chains) =
    follows src edge (In-append_left src chain more i) out found chains

-- The state after `push` of a vertex that is allowed where it goes.
push-IsLinked :
    (g : Graph) (root : ℕ) (v : Vertex) (st : State)
    → ((chain : List Vertex)
        → Dict.get_or root [] st.chain_set ≡ chain
        → Linked g (chain ++ v ∷ []) root v)
    → All (IsLinked g) st.chain_set
    → All (IsLinked g) (add_vertex_to_chain_set root v st).chain_set
push-IsLinked g root v st allowed h =
    Dict.All-push (IsLinked g) root v st.chain_set
      (λ fresh. (allowed [] (rw (Dict.has-false→get root st.chain_set fresh, Dict.get_or)), tt))
      (λ chain found linked.
        All-append (Linked g (chain ++ v ∷ []) root) chain (v ∷ [])
          (All-map chain (λ u. Linked-append g chain (v ∷ []) root u) linked)
          (allowed chain (rw (found, Dict.get_or)), tt))
      h

Step-IsLinked :
    (g : Graph) {s t : State}
    → Step g s t
    → All (IsLinked g) s.chain_set
    → All (IsLinked g) t.chain_set
Step-IsLinked g {s} (extend head src edge target f c) h =
    push-IsLinked g head target s
      (λ chain e.
        follows src edge (In-append_left src chain (target ∷ []) (subst (In src) e f.placed))
          f.output f.found (can_chain-IsChainable g src target edge c))
      h
Step-IsLinked g (revisit head src edge target f c o) h = h
Step-IsLinked g {s} (open_chain head src edge target f c o) h =
    push-IsLinked g edge.target_vertex_id target (visit target (tail_of head src edge s))
      (λ chain e. heads (vertex_map-OwnId g edge.target_vertex_id target f.found)) h

pub Reach-keeps :
    (g : Graph) (P : State → Type 0)
    → ((s t : State) → Step g s t → P s → P t)
    → {s t : State} → Reach g s t
    → P s
    → P t
Reach-keeps g P keep here p = p
Reach-keeps g P keep (next r step) p = keep _ _ step (Reach-keeps g P keep r p)

-- An invariant of the steps that also holds when a source opens its chain holds of the whole walk.
pub divide_sources-keeps :
    (g : Graph) (P : State → Type 0) (fuel : ℕ) (vs : List Vertex) (s t : State)
    → ((a b : State) → Step g a b → P a → P b)
    → ((v : Vertex) (a : State) → In v vs → P a → P (add_vertex_to_chain_set v.vertex_id v a))
    → P s
    → divide_sources fuel g vs s ≡ ok t
    → P t
unfolding divide_sources
divide_sources-keeps g P fuel [] s t keep opens p run = subst P (ok-injective run) p
divide_sources-keeps g P fuel (v ∷ vs) s t keep opens p run =
    let opened : State = add_vertex_to_chain_set v.vertex_id v s in
    let (mid, first, rest) = both_ok (divide_vertices fuel g v.vertex_id v opened) _ run in
    let r =
      divide_vertices-Reach fuel g v.vertex_id v opened mid (push-InChain_self v.vertex_id v s)
        first in
    divide_sources-keeps g P fuel vs mid t keep (λ u a i. opens u a (inr i))
      (Reach-keeps g P keep r (opens v s (inl refl) p)) rest

pub divide-keeps :
    (g : Graph) (P : State → Type 0) (t : State)
    → ((a b : State) → Step g a b → P a → P b)
    → ((v : Vertex) (a : State)
        → In v (get_source_vertices g)
        → P a
        → P (add_vertex_to_chain_set v.vertex_id v a))
    → P start
    → divide g ≡ ok t
    → P t
unfolding divide
divide-keeps g P t keep opens p run =
    divide_sources-keeps g P (depth_bound g) (get_source_vertices g) start t keep opens p run

-- Every vertex of every chain that `divide` returns is the chain's head, or the target of an edge from
-- another vertex of the same chain that has the same parallelism, where the target has at most one
-- input, the source at most one output, and the partition is forward.
pub divide-IsLinked : (g : Graph) (t : State) → divide g ≡ ok t → All (IsLinked g) t.chain_set
divide-IsLinked g t run =
    divide-keeps g (λ s. All (IsLinked g) s.chain_set) t (λ a b. Step-IsLinked g)
      (λ v a i h. push-IsLinked g v.vertex_id v a (λ chain e. heads refl) h) tt run
