-- ===== src/JobGraph/Optimizer/Output.antt =====
-- The graph that `optimize` of job_graph_optimizer.py returns.
use volga.Prelude.{
  nat_eq, ℕ, ◌≡◌, ◌≢◌, refl, inl, inr, Bool, true, false, not, none, some, List, [], ◌∷◌, ◌++◌,
  arith, In, In-append, In-All, All, All-In,
}
use volga.Prelude.Dict
use volga.Prelude.Dict.{Dict}
use volga.Partition.{PartitionClass, forward, broadcast}
use volga.JobGraph.{JobEdge, JobVertex, JobGraph, has_vertex, filter_edges}
use volga.JobGraph.Operator.{
  StreamOperator, Runnable, single, new_chained_operator, chained, operator_type, set_runnable_id,
}
use volga.JobGraph.Builder.{Graph}
use volga.JobGraph.Optimizer.{
  Vertex, State, ok, find, vertex_map, change_partition, new_edges, sort_by_join_right, reset_edges,
  operators_of, merge_chain, merge_chains, with_operator, divide, optimize, ◌>>=◌,
}
use volga.JobGraph.Optimizer.Total.{Ascends, divide-Ends, In-filter_edges}
use volga.JobGraph.Optimizer.Edges.{IsHeaded, Opened, TailsOpened, divide-IsWellFormed}

abbrev InMap : Graph → Vertex → Type 0
InMap g u = (w : Vertex) × (Dict.get u.vertex_id (vertex_map g) ≡ some w)

operators_of-total :
    (g : Graph) (vs : List Vertex)
    → All (InMap g) vs
    → (os : List StreamOperator) × (operators_of g vs ≡ ok os)
unfolding operators_of
operators_of-total g [] h = ([], refl)
operators_of-total g (v ∷ vs) h =
    let (w, found) = h.0 in
    let (os, rest) = operators_of-total g vs h.1 in (w.stream_operator ∷ os, rw (found, find, rest))

new_chained-two :
    (o p : StreamOperator) (os : List StreamOperator)
    → new_chained_operator (o ∷ p ∷ os) ≡ some (chained (operator_type o) (o ∷ p ∷ os) none)
unfolding new_chained_operator
new_chained-two o p os = ground arith

-- A chain with a head is merged into a vertex under the head's id.
merge_chain-total :
    (g : Graph) (head : ℕ) (vs : List Vertex)
    → IsHeaded g (head, vs)
    → (v : JobVertex Runnable) × (merge_chain g vs ≡ ok v) × (v.vertex_id ≡ head)
unfolding merge_chain
merge_chain-total g head [] h = absurd h
merge_chain-total g head (v ∷ []) h = (with_operator v (single v.stream_operator), refl, h.0)
merge_chain-total g head (v ∷ w ∷ vs) h =
    let (x, x_found) = h.1.0 in
    let (y, y_found) = h.1.1.0 in
    let (os, run) = operators_of-total g vs h.1.1.1 in
    let ops : List StreamOperator = x.stream_operator ∷ y.stream_operator ∷ os in
    let made : operators_of g (v ∷ w ∷ vs) ≡ ok ops =
      unfold operators_of in rw (x_found, find, y_found, run) in
    (
      with_operator v
          (set_runnable_id v.vertex_id (chained (operator_type x.stream_operator) ops none)),
      rw (made, ◌>>=◌, new_chained-two x.stream_operator y.stream_operator os),
      h.0,
    )

merge_chains-total :
    (g : Graph) (d : Dict ℕ (List Vertex))
    → All (IsHeaded g) d
    → (vs : List (JobVertex Runnable)) × (merge_chains g d ≡ ok vs)
      × ((i : ℕ) → Dict.has i d ≡ true → has_vertex i vs ≡ true)
unfolding merge_chains has_vertex Dict.has
merge_chains-total g [] h = ([], refl, λ i there. cc)
merge_chains-total g ((head, chain) ∷ d) h =
    let (v, merged, own) = merge_chain-total g head chain h.0 in
    let (vs, rest, has) = merge_chains-total g d h.1 in
    (v ∷ vs, rw (merged, rest), λ i there. covers i v vs own (has i) there)
  where
    covers :
        (i : ℕ) (v : JobVertex Runnable) (vs : List (JobVertex Runnable))
        → v.vertex_id ≡ head
        → (Dict.has i d ≡ true → has_vertex i vs ≡ true)
        → Dict.has i ((head, chain) ∷ d) ≡ true
        → has_vertex i (v ∷ vs) ≡ true
    covers i v vs own below there = ground arith

-- The edges without the join flag stand before those with it.
abbrev pub JoinsLast : List JobEdge → Type 0
JoinsLast [] = Unit
JoinsLast (e ∷ es) =
    (e.is_join_right_edge ≡ true → All (λ (d : JobEdge). d.is_join_right_edge ≡ true) es)
    × JoinsLast es

JoinsLast-append :
    (es fs : List JobEdge)
    → All (λ (d : JobEdge). d.is_join_right_edge ≡ false) es
    → All (λ (d : JobEdge). d.is_join_right_edge ≡ true) fs
    → JoinsLast (es ++ fs)
JoinsLast-append [] [] h k = tt
JoinsLast-append [] (f ∷ fs) h k = (λ _. k.1, JoinsLast-append [] fs tt k.1)
JoinsLast-append (e ∷ es) fs h k =
    (λ flag. absurd (true_false flag h.0), JoinsLast-append es fs h.1 k)
  where
    true_false : {b : Bool} → b ≡ true → b ≡ false → ⊥
    true_false p q = cc

In-sort : (e : JobEdge) (es : List JobEdge) → In e (sort_by_join_right es) → In e es
unfolding sort_by_join_right
In-sort e es i = elim (In-append e (filter_edges _ es) _ i) [
  | inl l ↦ (In-filter_edges (λ d. not d.is_join_right_edge) e es l).0
  | inr r ↦ (In-filter_edges (λ d. d.is_join_right_edge) e es r).0
]

sort-JoinsLast : (es : List JobEdge) → JoinsLast (sort_by_join_right es)
unfolding sort_by_join_right
sort-JoinsLast es =
    JoinsLast-append (filter_edges (λ d. not d.is_join_right_edge) es)
      (filter_edges (λ d. d.is_join_right_edge) es)
      (In-All _ _ (λ e i. not_true (In-filter_edges (λ d. not d.is_join_right_edge) e es i).1))
      (In-All _ _ (λ e i. (In-filter_edges (λ d. d.is_join_right_edge) e es i).1))
  where
    not_true : {b : Bool} → not b ≡ true → b ≡ false
    not_true h = ground arith

change_partition-ne-forward : (p : PartitionClass) → change_partition p ≢ forward
change_partition-ne-forward broadcast e = cc
change_partition-ne-forward _ e = cc

abbrev pub IsCut : State → JobEdge → Type 0
IsCut st e = Opened st e.source_vertex_id × Opened st e.target_vertex_id × (e.partition ≢ forward)

new_edges-IsCut :
    (st : State) (d : Dict ℕ (List JobEdge)) → All (TailsOpened st) d → All (IsCut st) (new_edges d)
unfolding new_edges
new_edges-IsCut st [] h = tt
new_edges-IsCut st ((head, []) ∷ d) h = new_edges-IsCut st d h.1
new_edges-IsCut st ((head, e ∷ es) ∷ d) h = (
  (h.0.0, h.0.1.0, change_partition-ne-forward e.partition),
  new_edges-IsCut st ((head, es) ∷ d) ((h.0.0, h.0.1.1), h.1),
)

-- What a caller of `optimize` relies on: every edge joins two vertices of the graph, no edge between
-- chains keeps a forward partition, and the right edges of joins stand last.
pub record IsOptimized (g : JobGraph Runnable) : Type 0 where
  pub joined :
      All
        (λ e.
          (has_vertex e.source_vertex_id g.job_vertices ≡ true)
          × (has_vertex e.target_vertex_id g.job_vertices ≡ true)
          × (e.partition ≢ forward))
        g.job_edges
  pub ordered : JoinsLast g.job_edges

module _ (g : Graph) (st : State) (run : divide g ≡ ok st) where
  optimize-merged : (out : JobGraph Runnable) × (optimize g ≡ ok out) × IsOptimized out
  unfolding optimize reset_edges
  optimize-merged =
      let w = divide-IsWellFormed g st run in
      let (vs, merged, has) = merge_chains-total g st.chain_set w.chains in
      let cut : All (IsCut st) (new_edges st.tail_edges_map) = new_edges-IsCut st _ w.tails in
      (
        record {
          job_name = g.job_name;
          job_config = g.job_config;
          job_vertices = vs;
          job_edges = sort_by_join_right (new_edges st.tail_edges_map);
        },
        rw (run, merged),
        record {
          joined = In-All _ _ λ e i.
              let c = All-In (IsCut st) e _ cut (In-sort e _ i) in (has _ c.0, has _ c.1, c.2);
          ordered = sort-JoinsLast (new_edges st.tail_edges_map);
        },
      )

-- On a graph whose edges join vertices of the graph and go from smaller to greater ids, `optimize`
-- returns a graph, and that graph is optimized: its edges join its vertices, none has a forward
-- partition, and the right edges of joins stand last.
pub optimize-IsOptimized :
    (g : Graph)
    → All (Ascends g) g.job_edges
    → (out : JobGraph Runnable) × (optimize g ≡ ok out) × IsOptimized out
optimize-IsOptimized g ascends = let (st, run) = divide-Ends g ascends in optimize-merged g st run
