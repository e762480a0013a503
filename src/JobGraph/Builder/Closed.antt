-- ===== src/JobGraph/Builder/Closed.antt =====
-- The edges of a built graph (job_graph_builder.py) join vertices of the graph.
use Prim.Native.String.{String}
use volga.Prelude.{
  ℕ, ◌≡◌, refl, ◌⊎◌, true, Option, List, [], ◌∷◌, subst, sym, arith, Bool-cases, inl, inr, All,
  All-append, All-map,
}
use volga.Prelude.Dict.{Dict}
use volga.JobGraph.{
  JobEdge, JobVertex, join, has_vertex, has_edge, add_vertex_if_not_exists, add_edge_if_not_exists,
}
use volga.JobGraph.Builder.{
  Stream, stream_source, data_stream, join_stream, union_stream, stream_sink, attributes, edge_to,
  right_edge_to, new_job_vertex, process_stream, process_all, build, Graph,
}
use volga.JobGraph.Operator.{StreamOperator}
use volga.JobGraph.Builder.Distinct.{has_vertex-append}

-- The graph has the vertex.
abbrev pub Has : ℕ → Graph → Type 0
Has i g = has_vertex i g.job_vertices ≡ true

abbrev pub Joins : Graph → JobEdge → Type 0
Joins g e = Has e.source_vertex_id g × Has e.target_vertex_id g

add_vertex-Has_self : (v : _) (g : Graph) → Has v.vertex_id (add_vertex_if_not_exists v g)
unfolding add_vertex_if_not_exists
add_vertex-Has_self v g = elim (Bool-cases (has_vertex v.vertex_id g.job_vertices)) [
  | inl old ↦ rw old old
  | inr new ↦ rw new (rw has_vertex-append (ground arith))
]

add_vertex-Has : (i : ℕ) (v : _) (g : Graph) → Has i g → Has i (add_vertex_if_not_exists v g)
unfolding add_vertex_if_not_exists
add_vertex-Has i v g h = elim (Bool-cases (has_vertex v.vertex_id g.job_vertices)) [
  | inl old ↦ rw old h
  | inr new ↦ rw new (rw has_vertex-append (ground arith))
]

add_edge-Has : (i : ℕ) (e : JobEdge) (g : Graph) → Has i g → Has i (add_edge_if_not_exists e g)
unfolding add_edge_if_not_exists
add_edge-Has i e g h = ground arith

-- Streams of the classes whose constructors are complete: no `UnionStream`.
abbrev pub NoUnion : Stream → Type 0
NoUnion (stream_source a) = Unit
NoUnion (data_stream a input) = NoUnion input
NoUnion (stream_sink a input) = NoUnion input
NoUnion (join_stream a input right) = NoUnion input × NoUnion right
NoUnion (union_stream a input others) = ⊥

process_stream-Has :
    (i : ℕ) (s : Stream) (g : Graph) → NoUnion s → Has i g → Has i (process_stream s g)
unfolding process_stream
process_stream-Has i (stream_source a) g n h = add_vertex-Has i _ g h
process_stream-Has i (data_stream a input) g n h =
    add_vertex-Has i _ _ (process_stream-Has i input _ n (add_edge-Has i _ g h))
process_stream-Has i (stream_sink a input) g n h =
    add_vertex-Has i _ _ (process_stream-Has i input _ n (add_edge-Has i _ g h))
process_stream-Has i (join_stream a input right) g n h = add_vertex-Has i _ _ (
    process_stream-Has i right _ n.1
      (add_edge-Has i _ _ (process_stream-Has i input _ n.0 (add_edge-Has i _ g h))))
process_stream-Has i (union_stream a input others) g n h = absurd n

process_stream-Has_self : (s : Stream) (g : Graph) → Has (attributes s).id (process_stream s g)
unfolding process_stream
process_stream-Has_self (stream_source a) g = add_vertex-Has_self _ g
process_stream-Has_self (data_stream a input) g = add_vertex-Has_self _ _
process_stream-Has_self (stream_sink a input) g = add_vertex-Has_self _ _
process_stream-Has_self (join_stream a input right) g = add_vertex-Has_self _ _
process_stream-Has_self (union_stream a input others) g = add_vertex-Has_self _ _

-- The edges after an edge was added, where `Q` held of the edges before.
pub add_edge-All :
    (Q : JobEdge → Type 0) (e : JobEdge) (g : Graph)
    → All Q g.job_edges
    → Q e
    → All Q (add_edge_if_not_exists e g).job_edges
unfolding add_edge_if_not_exists
add_edge-All Q e g h q =
    elim (Bool-cases (has_edge e.source_vertex_id e.target_vertex_id g.job_edges)) [
      | inl old ↦ rw old h
      | inr new ↦ rw new (All-append Q g.job_edges (e ∷ []) h (q, tt))
    ]

pub add_vertex-edges : (v : _) (g : Graph) → (add_vertex_if_not_exists v g).job_edges ≡ g.job_edges
unfolding add_vertex_if_not_exists
add_vertex-edges v g = ground arith

-- What is known of an edge after the streams below a vertex are processed.
abbrev Known : (JobEdge → Type 0) → Graph → JobEdge → Type 0
Known Q g e = Q e ⊎ Joins g e

-- The new edge of a vertex is settled once both ends are there.
settle :
    (Q : JobEdge → Type 0) (new : JobEdge) (g h : Graph) (e : JobEdge)
    → ((i : ℕ) → Has i g → Has i h)
    → Joins h new
    → Known (λ d. Q d ⊎ (d ≡ new)) g e
    → Known Q h e
settle Q new g h e grow j (inl (inl q)) = inl q
settle Q new g h e grow j (inl (inr same)) = inr (subst (Joins h) (sym same) j)
settle Q new g h e grow j (inr (s, t)) = inr (grow _ s, grow _ t)

-- The same for the two edges of a join.
settle_two :
    (Q : JobEdge → Type 0) (left right : JobEdge) (g1 g2 h : Graph) (e : JobEdge)
    → ((i : ℕ) → Has i g1 → Has i g2)
    → ((i : ℕ) → Has i g2 → Has i h)
    → Joins h left
    → Joins h right
    → Known (λ c. Known (λ d. Q d ⊎ (d ≡ left)) g1 c ⊎ (c ≡ right)) g2 e
    → Known Q h e
settle_two Q left right g1 g2 h e grow last jl jr (inl (inl (inl (inl q)))) = inl q
settle_two Q left right g1 g2 h e grow last jl jr (inl (inl (inl (inr same)))) =
    inr (subst (Joins h) (sym same) jl)
settle_two Q left right g1 g2 h e grow last jl jr (inl (inl (inr (s, t)))) =
    inr (last _ (grow _ s), last _ (grow _ t))
settle_two Q left right g1 g2 h e grow last jl jr (inl (inr same)) =
    inr (subst (Joins h) (sym same) jr)
settle_two Q left right g1 g2 h e grow last jl jr (inr (s, t)) = inr (last _ s, last _ t)

-- One input of a vertex: its edge is added and then its streams are processed.
below-Known :
    (Q : JobEdge → Type 0) (new : JobEdge) (process : Graph → Graph) (g : Graph)
    → ((P : JobEdge → Type 0) (h : Graph)
        → All P h.job_edges
        → All (Known P (process h)) (process h).job_edges)
    → All Q g.job_edges
    → All
        (Known (λ d. Q d ⊎ (d ≡ new)) (process (add_edge_if_not_exists new g)))
        (process (add_edge_if_not_exists new g)).job_edges
below-Known Q new process g ih h =
    ih (λ d. Q d ⊎ (d ≡ new)) (add_edge_if_not_exists new g)
      (add_edge-All (λ d. Q d ⊎ (d ≡ new)) new g (All-map g.job_edges (λ d q. inl q) h) (inr refl))

-- A vertex with one input.
one_input-Known :
    (Q : JobEdge → Type 0) (v : JobVertex StreamOperator) (input : Stream) (g : Graph)
    → NoUnion input
    → ((P : JobEdge → Type 0) (h : Graph)
        → All P h.job_edges
        → All (Known P (process_stream input h)) (process_stream input h).job_edges)
    → All Q g.job_edges
    → let g' : Graph =
        add_vertex_if_not_exists v
          (process_stream input (add_edge_if_not_exists (edge_to v.vertex_id input) g)) in
      All (Known Q g') g'.job_edges
one_input-Known Q v input g n ih h =
    let new : JobEdge = edge_to v.vertex_id input in
    let g1 : Graph = process_stream input (add_edge_if_not_exists new g) in
    rw (add_vertex-edges v g1) (
      All-map g1.job_edges
        (λ e.
          settle Q new g1 (add_vertex_if_not_exists v g1) e (λ i. add_vertex-Has i v g1)
            (add_vertex-Has _ v g1 (process_stream-Has_self input _), add_vertex-Has_self v g1))
        (below-Known Q new (process_stream input) g ih h))

process_stream-Known :
    (s : Stream)
    → NoUnion s
    → (Q : JobEdge → Type 0) (g : Graph) → All Q g.job_edges
    → All (Known Q (process_stream s g)) (process_stream s g).job_edges
unfolding process_stream
process_stream-Known (stream_source a) n Q g h =
    rw add_vertex-edges (All-map g.job_edges (λ e q. inl q) h)
process_stream-Known (data_stream a input) n Q g h =
    one_input-Known Q _ input g n (process_stream-Known input n) h
process_stream-Known (stream_sink a input) n Q g h =
    one_input-Known Q _ input g n (process_stream-Known input n) h
process_stream-Known (join_stream a input right) n Q g h =
    let left_edge : JobEdge = edge_to a.id input in
    let right_edge : JobEdge = right_edge_to a.id right in
    let v : JobVertex StreamOperator = new_job_vertex a join in
    let g1 : Graph = process_stream input (add_edge_if_not_exists left_edge g) in
    let g2 : Graph = process_stream right (add_edge_if_not_exists right_edge g1) in
    let grow : (i : ℕ) → Has i g1 → Has i g2 =
      λ i there. process_stream-Has i right _ n.1 (add_edge-Has i right_edge g1 there) in
    let last : (i : ℕ) → Has i g2 → Has i (add_vertex_if_not_exists v g2) =
      λ i. add_vertex-Has i v g2 in
    let first =
      below-Known Q left_edge (process_stream input) g (process_stream-Known input n.0) h in
    let second =
      below-Known (Known (λ d. Q d ⊎ (d ≡ left_edge)) g1) right_edge (process_stream right) g1
        (process_stream-Known right n.1) first in
    rw (add_vertex-edges v g2) (
      All-map g2.job_edges
        (λ e.
          settle_two Q left_edge right_edge g1 g2 (add_vertex_if_not_exists v g2) e grow last
            (last _ (grow _ (process_stream-Has_self input _)), add_vertex-Has_self v g2)
            (last _ (process_stream-Has_self right _), add_vertex-Has_self v g2))
        second)
process_stream-Known (union_stream a input others) n Q g h = absurd n

process_all-Joins :
    (ss : List Stream) (g : Graph)
    → All NoUnion ss
    → All (Joins g) g.job_edges
    → All (Joins (process_all ss g)) (process_all ss g).job_edges
unfolding process_all
process_all-Joins [] g n h = h
process_all-Joins (s ∷ ss) g n h =
    let g1 : Graph = process_stream s g in
    process_all-Joins ss g1 n.1
      (All-map g1.job_edges (λ e. known_joins s g e n.0) (process_stream-Known s n.0 (Joins g) g h))
  where
    known_joins :
        (t : Stream) (f : Graph) (e : JobEdge)
        → NoUnion t
        → Known (Joins f) (process_stream t f) e
        → Joins (process_stream t f) e
    known_joins t f e m (inl (a, b)) = (process_stream-Has _ t f m a, process_stream-Has _ t f m b)
    known_joins t f e m (inr j) = j

-- Without a UnionStream, each edge of a built graph joins two vertices of that graph, so the
-- optimizer and the execution graph find both ends of every edge.
pub build-Joins :
    (sinks : List Stream) (name : String) (config : Option (Dict String String))
    → All NoUnion sinks
    → All (Joins (build sinks name config)) (build sinks name config).job_edges
unfolding build
build-Joins sinks name config n = process_all-Joins sinks _ n tt
