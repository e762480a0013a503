-- ===== src/JobGraph/Builder/Distinct.antt =====
-- `add_vertex_if_not_exists` and `add_edge_if_not_exists` of job_graph.py through a whole build.
use Prim.Native.String.{String}
use volga.Prelude.{
  ℕ, ◌==◌, ◌≡◌, refl, true, false, ◌&&◌, if◌then◌else◌, Option, List, [], ◌∷◌, ◌++◌, arith,
  Bool-cases, inl, inr,
}
use volga.Prelude.Dict.{Dict}
use volga.JobGraph.{
  JobEdge, JobVertex, has_vertex, has_edge, add_vertex_if_not_exists, add_edge_if_not_exists,
}
use volga.JobGraph.Builder.{
  Stream, stream_source, data_stream, join_stream, union_stream, stream_sink, Streams, no_more,
  one_more, add_union_edges, process_stream, process_all, build, Graph,
}

module _ {O : Type 0} where
  abbrev pub DistinctVertices : List (JobVertex O) → Type 0
  DistinctVertices [] = Unit
  DistinctVertices (v ∷ vs) = (has_vertex v.vertex_id vs ≡ false) × DistinctVertices vs

  pub has_vertex-append :
      (i : ℕ) (vs : List (JobVertex O)) (v : JobVertex O)
      → has_vertex i (vs ++ v ∷ []) ≡ (if has_vertex i vs then true else v.vertex_id == i)
  unfolding has_vertex
  has_vertex-append i [] v = ground arith
  has_vertex-append i (w ∷ vs) v = ground (arith, has_vertex-append i vs v)

  DistinctVertices-append :
      (vs : List (JobVertex O)) (v : JobVertex O)
      → has_vertex v.vertex_id vs ≡ false
      → DistinctVertices vs
      → DistinctVertices (vs ++ v ∷ [])
  unfolding has_vertex
  DistinctVertices-append [] v h d = (refl, tt)
  DistinctVertices-append (w ∷ vs) v h d =
      (rw has_vertex-append (ground arith), DistinctVertices-append vs v (ground arith) d.1)

abbrev pub DistinctEdges : List JobEdge → Type 0
DistinctEdges [] = Unit
DistinctEdges (e ∷ es) =
    (has_edge e.source_vertex_id e.target_vertex_id es ≡ false) × DistinctEdges es

pub has_edge-append :
    (s t : ℕ) (es : List JobEdge) (e : JobEdge)
    → has_edge s t (es ++ e ∷ [])
      ≡ (if has_edge s t es then true else e.source_vertex_id == s && e.target_vertex_id == t)
unfolding has_edge
has_edge-append s t [] e = ground arith
has_edge-append s t (d ∷ es) e = ground (arith, has_edge-append s t es e)

DistinctEdges-append :
    (es : List JobEdge) (e : JobEdge)
    → has_edge e.source_vertex_id e.target_vertex_id es ≡ false
    → DistinctEdges es
    → DistinctEdges (es ++ e ∷ [])
unfolding has_edge
DistinctEdges-append [] e h d = (refl, tt)
DistinctEdges-append (x ∷ es) e h d =
    (rw has_edge-append (ground arith), DistinctEdges-append es e (ground arith) d.1)

-- No two vertices of one id, and no two edges between the same vertices.
pub record IsDistinct (g : Graph) : Type 0 where
  pub vertices : DistinctVertices g.job_vertices
  pub edges : DistinctEdges g.job_edges

add_vertex-IsDistinct :
    (v : _) (g : Graph) → IsDistinct g → IsDistinct (add_vertex_if_not_exists v g)
unfolding add_vertex_if_not_exists
add_vertex-IsDistinct v g d = elim (Bool-cases (has_vertex v.vertex_id g.job_vertices)) [
  | inl old ↦ rw old d
  | inr new ↦ rw new (record {
    vertices = DistinctVertices-append g.job_vertices v new d.vertices;
    edges = d.edges;
  })
]

add_edge-IsDistinct :
    (e : JobEdge) (g : Graph) → IsDistinct g → IsDistinct (add_edge_if_not_exists e g)
unfolding add_edge_if_not_exists
add_edge-IsDistinct e g d =
    elim (Bool-cases (has_edge e.source_vertex_id e.target_vertex_id g.job_edges)) [
      | inl old ↦ rw old d
      | inr new ↦
          rw new (record {
            vertices = d.vertices;
            edges = DistinctEdges-append g.job_edges e new d.edges;
          })
    ]

add_union_edges-IsDistinct :
    (again : Graph → Graph) (target : ℕ) (others : Streams) (g : Graph)
    → ((h : Graph) → IsDistinct h → IsDistinct (again h))
    → IsDistinct g
    → IsDistinct (add_union_edges again target others g)
unfolding add_union_edges
add_union_edges-IsDistinct again target no_more g keep d = d
add_union_edges-IsDistinct again target (one_more other others) g keep d =
    add_union_edges-IsDistinct again target others _ keep (keep _ (add_edge-IsDistinct _ g d))

pub process_stream-IsDistinct :
    (s : Stream) (g : Graph) → IsDistinct g → IsDistinct (process_stream s g)
unfolding process_stream
process_stream-IsDistinct (stream_source a) g d = add_vertex-IsDistinct _ g d
process_stream-IsDistinct (data_stream a input) g d =
    add_vertex-IsDistinct _ _ (process_stream-IsDistinct input _ (add_edge-IsDistinct _ g d))
process_stream-IsDistinct (stream_sink a input) g d =
    add_vertex-IsDistinct _ _ (process_stream-IsDistinct input _ (add_edge-IsDistinct _ g d))
process_stream-IsDistinct (join_stream a input right) g d = add_vertex-IsDistinct _ _ (
    process_stream-IsDistinct right _
      (add_edge-IsDistinct _ _ (process_stream-IsDistinct input _ (add_edge-IsDistinct _ g d))))
process_stream-IsDistinct (union_stream a input others) g d = add_vertex-IsDistinct _ _ (
    add_union_edges-IsDistinct _ a.id others _ (λ h. process_stream-IsDistinct input h)
      (process_stream-IsDistinct input _ (add_edge-IsDistinct _ g d)))

process_all-IsDistinct :
    (ss : List Stream) (g : Graph) → IsDistinct g → IsDistinct (process_all ss g)
unfolding process_all
process_all-IsDistinct [] g d = d
process_all-IsDistinct (s ∷ ss) g d = process_all-IsDistinct ss _ (process_stream-IsDistinct s g d)

-- A built graph has no two vertices of one id and no two edges between the same two vertices,
-- also where streams are shared between sinks.
pub build-IsDistinct :
    (sinks : List Stream) (name : String) (config : Option (Dict String String))
    → IsDistinct (build sinks name config)
unfolding build
build-IsDistinct sinks name config =
    process_all-IsDistinct sinks _ (record { vertices = tt; edges = tt })
