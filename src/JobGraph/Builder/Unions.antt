-- ===== src/JobGraph/Builder/Unions.antt =====
-- `_process_stream` on a UnionStream (job_graph_builder.py, the loop over `union_streams`).
use volga.Prelude.{ℕ, ◌≡◌, ◌≢◌, ◌⊎◌, true, false, Bool-cases, inl, inr, arith}
use volga.JobGraph.{
  JobEdge, JobVertex, has_vertex, has_edge, add_vertex_if_not_exists, add_edge_if_not_exists,
}
use volga.JobGraph.Builder.{
  Attributes, Stream, stream_source, data_stream, join_stream, union_stream, stream_sink, Streams,
  no_more, one_more, attributes, edge_to, add_union_edges, process_stream, Graph,
}
use volga.JobGraph.Operator.{StreamOperator}
use volga.JobGraph.Builder.Distinct.{has_vertex-append, has_edge-append}

-- The streams that the walk visits. Of a union that is its own input, and not the others.
abbrev pub Visits : ℕ → Stream → Type 0
Visits i (stream_source a) = a.id ≡ i
Visits i (data_stream a input) = (a.id ≡ i) ⊎ Visits i input
Visits i (stream_sink a input) = (a.id ≡ i) ⊎ Visits i input
Visits i (join_stream a input right) = (a.id ≡ i) ⊎ (Visits i input ⊎ Visits i right)
Visits i (union_stream a input others) = (a.id ≡ i) ⊎ Visits i input

abbrev Lacks : ℕ → Graph → Type 0
Lacks i g = has_vertex i g.job_vertices ≡ false

add_vertex-Lacks :
    (i : ℕ) (v : JobVertex StreamOperator) (g : Graph)
    → v.vertex_id ≢ i
    → Lacks i g
    → Lacks i (add_vertex_if_not_exists v g)
unfolding add_vertex_if_not_exists
add_vertex-Lacks i v g ne h = elim (Bool-cases (has_vertex v.vertex_id g.job_vertices)) [
  | inl old ↦ rw old h
  | inr new ↦ rw new (rw has_vertex-append (ground arith))
]

add_edge-Lacks :
    (i : ℕ) (e : JobEdge) (g : Graph) → Lacks i g → Lacks i (add_edge_if_not_exists e g)
unfolding add_edge_if_not_exists
add_edge-Lacks i e g h = ground arith

add_union_edges-Lacks :
    (i : ℕ) (again : Graph → Graph) (target : ℕ) (others : Streams) (g : Graph)
    → ((h : Graph) → Lacks i h → Lacks i (again h))
    → Lacks i g
    → Lacks i (add_union_edges again target others g)
unfolding add_union_edges
add_union_edges-Lacks i again target no_more g keep h = h
add_union_edges-Lacks i again target (one_more other others) g keep h =
    add_union_edges-Lacks i again target others _ keep (keep _ (add_edge-Lacks i _ g h))

process_stream-Lacks :
    (i : ℕ) (s : Stream) → ¬ Visits i s → (g : Graph) → Lacks i g → Lacks i (process_stream s g)
unfolding process_stream
process_stream-Lacks i (stream_source a) n g h = add_vertex-Lacks i _ g n h
process_stream-Lacks i (data_stream a input) n g h =
    add_vertex-Lacks i _ _ (λ e. n (inl e))
      (process_stream-Lacks i input (λ v. n (inr v)) _ (add_edge-Lacks i _ g h))
process_stream-Lacks i (stream_sink a input) n g h =
    add_vertex-Lacks i _ _ (λ e. n (inl e))
      (process_stream-Lacks i input (λ v. n (inr v)) _ (add_edge-Lacks i _ g h))
process_stream-Lacks i (join_stream a input right) n g h =
    add_vertex-Lacks i _ _ (λ e. n (inl e))
      (process_stream-Lacks i right (λ v. n (inr (inr v))) _
        (add_edge-Lacks i _ _
          (process_stream-Lacks i input (λ v. n (inr (inl v))) _ (add_edge-Lacks i _ g h))))
process_stream-Lacks i (union_stream a input others) n g h =
    let below : (f : Graph) → Lacks i f → Lacks i (process_stream input f) =
      process_stream-Lacks i input (λ v. n (inr v)) in
    add_vertex-Lacks i _ _ (λ e. n (inl e))
      (add_union_edges-Lacks i (process_stream input) a.id others _ below
        (below _ (add_edge-Lacks i (edge_to a.id input) g h)))

abbrev HasEdge : ℕ → ℕ → Graph → Type 0
HasEdge s t g = has_edge s t g.job_edges ≡ true

add_edge-HasEdge :
    (s t : ℕ) (e : JobEdge) (g : Graph) → HasEdge s t g → HasEdge s t (add_edge_if_not_exists e g)
unfolding add_edge_if_not_exists
add_edge-HasEdge s t e g h =
    elim (Bool-cases (has_edge e.source_vertex_id e.target_vertex_id g.job_edges)) [
      | inl old ↦ rw old h
      | inr new ↦ rw new (rw (has_edge-append, h))
    ]

add_edge-HasEdge_self :
    (e : JobEdge) (g : Graph)
    → HasEdge e.source_vertex_id e.target_vertex_id (add_edge_if_not_exists e g)
unfolding add_edge_if_not_exists
add_edge-HasEdge_self e g =
    elim (Bool-cases (has_edge e.source_vertex_id e.target_vertex_id g.job_edges)) [
      | inl old ↦ rw old old
      | inr new ↦ rw new (rw has_edge-append (ground arith))
    ]

add_vertex-HasEdge :
    (s t : ℕ) (v : JobVertex StreamOperator) (g : Graph)
    → HasEdge s t g
    → HasEdge s t (add_vertex_if_not_exists v g)
unfolding add_vertex_if_not_exists
add_vertex-HasEdge s t v g h = ground arith

add_union_edges-HasEdge :
    (s t : ℕ) (again : Graph → Graph) (target : ℕ) (others : Streams) (g : Graph)
    → ((h : Graph) → HasEdge s t h → HasEdge s t (again h))
    → HasEdge s t g
    → HasEdge s t (add_union_edges again target others g)
unfolding add_union_edges
add_union_edges-HasEdge s t again target no_more g keep h = h
add_union_edges-HasEdge s t again target (one_more other others) g keep h =
    add_union_edges-HasEdge s t again target others _ keep (keep _ (add_edge-HasEdge s t _ g h))

process_stream-HasEdge :
    (s t : ℕ) (stream : Stream) (g : Graph) → HasEdge s t g → HasEdge s t (process_stream stream g)
unfolding process_stream
process_stream-HasEdge s t (stream_source a) g h = add_vertex-HasEdge s t _ g h
process_stream-HasEdge s t (data_stream a input) g h =
    add_vertex-HasEdge s t _ _ (process_stream-HasEdge s t input _ (add_edge-HasEdge s t _ g h))
process_stream-HasEdge s t (stream_sink a input) g h =
    add_vertex-HasEdge s t _ _ (process_stream-HasEdge s t input _ (add_edge-HasEdge s t _ g h))
process_stream-HasEdge s t (join_stream a input right) g h = add_vertex-HasEdge s t _ _ (
    process_stream-HasEdge s t right _
      (add_edge-HasEdge s t _ _ (process_stream-HasEdge s t input _ (add_edge-HasEdge s t _ g h))))
process_stream-HasEdge s t (union_stream a input others) g h =
    let below : (f : Graph) → HasEdge s t f → HasEdge s t (process_stream input f) =
      process_stream-HasEdge s t input in
    add_vertex-HasEdge s t _ _ (
      add_union_edges-HasEdge s t (process_stream input) a.id others _ below
        (below _ (add_edge-HasEdge s t (edge_to a.id input) g h)))

pub union_drops_stream :
    (a : Attributes) (input other : Stream) (others : Streams) (g : Graph)
    → a.id ≢ (attributes other).id
    → ¬ Visits (attributes other).id input
    → has_vertex (attributes other).id g.job_vertices ≡ false
    → let built : Graph = process_stream (union_stream a input (one_more other others)) g in
      (has_edge (attributes other).id a.id built.job_edges ≡ true)
      × (has_vertex (attributes other).id built.job_vertices ≡ false)
unfolding process_stream add_union_edges
union_drops_stream a input other others g ne away lacks =
    let i : ℕ = (attributes other).id in
    let below : (f : Graph) → HasEdge i a.id f → HasEdge i a.id (process_stream input f) =
      process_stream-HasEdge i a.id input in
    (
      add_vertex-HasEdge i a.id _ _ (
          add_union_edges-HasEdge i a.id (process_stream input) a.id others _ below
            (below _ (add_edge-HasEdge_self (edge_to a.id other) _))),
      process_stream-Lacks i (union_stream a input (one_more other others)) not_met g lacks,
    )
  where
    not_met : ¬ Visits (attributes other).id (union_stream a input (one_more other others))
    not_met (inl e) = ne e
    not_met (inr v) = away v
