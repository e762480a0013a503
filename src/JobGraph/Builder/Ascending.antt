-- ===== src/JobGraph/Builder/Ascending.antt =====
-- The edges that job_graph_builder.py makes for streams whose ids grow from input to output.
use Prim.Native.String.{String}
use volga.Prelude.{◌<◌, ◌≡◌, Option, List, [], ◌∷◌, In-All, All, All-map, All-In}
use volga.Prelude.Dict.{Dict}
use volga.JobGraph.{JobEdge}
use volga.JobGraph.Operator.{Runnable}
use volga.JobGraph.{JobGraph}
use volga.JobGraph.Builder.{
  Stream, stream_source, data_stream, join_stream, union_stream, stream_sink, attributes, edge_to,
  right_edge_to, process_stream, process_all, build, Graph,
}
use volga.JobGraph.Builder.Closed.{NoUnion, Joins, build-Joins, add_edge-All, add_vertex-edges}
use volga.JobGraph.Optimizer.{optimize, ok}
use volga.JobGraph.Optimizer.Total.{Ascends}
use volga.JobGraph.Optimizer.Output.{IsOptimized, optimize-IsOptimized}

-- Each stream has a greater id than the streams that it reads.
abbrev pub IsNumbered : Stream → Type 0
IsNumbered (stream_source a) = Unit
IsNumbered (data_stream a input) = ((attributes input).id < a.id) × IsNumbered input
IsNumbered (stream_sink a input) = ((attributes input).id < a.id) × IsNumbered input
IsNumbered (join_stream a input right) =
    ((attributes input).id < a.id)
    × ((attributes right).id < a.id)
    × IsNumbered input
    × IsNumbered right
IsNumbered (union_stream a input others) = ⊥

abbrev Up : JobEdge → Type 0
Up e = e.source_vertex_id < e.target_vertex_id

process_stream-Up :
    (s : Stream) (g : Graph)
    → IsNumbered s
    → All Up g.job_edges
    → All Up (process_stream s g).job_edges
unfolding process_stream
process_stream-Up (stream_source a) g n h = rw add_vertex-edges h
process_stream-Up (data_stream a input) g n h =
    rw add_vertex-edges
      (process_stream-Up input _ n.1 (add_edge-All Up (edge_to a.id input) g h n.0))
process_stream-Up (stream_sink a input) g n h =
    rw add_vertex-edges
      (process_stream-Up input _ n.1 (add_edge-All Up (edge_to a.id input) g h n.0))
process_stream-Up (join_stream a input right) g n h = rw add_vertex-edges (
    process_stream-Up right _ n.3 (
      add_edge-All Up (right_edge_to a.id right) _
        (process_stream-Up input _ n.2 (add_edge-All Up (edge_to a.id input) g h n.0)) n.1))
process_stream-Up (union_stream a input others) g n h = absurd n

process_all-Up :
    (ss : List Stream) (g : Graph)
    → All IsNumbered ss
    → All Up g.job_edges
    → All Up (process_all ss g).job_edges
unfolding process_all
process_all-Up [] g n h = h
process_all-Up (s ∷ ss) g n h = process_all-Up ss _ n.1 (process_stream-Up s g n.0 h)

numbered-NoUnion : (s : Stream) → IsNumbered s → NoUnion s
numbered-NoUnion (stream_source a) n = tt
numbered-NoUnion (data_stream a input) n = numbered-NoUnion input n.1
numbered-NoUnion (stream_sink a input) n = numbered-NoUnion input n.1
numbered-NoUnion (join_stream a input right) n =
    (numbered-NoUnion input n.2, numbered-NoUnion right n.3)
numbered-NoUnion (union_stream a input others) n = absurd n

pub build-Ascends :
    (sinks : List Stream) (name : String) (config : Option (Dict String String))
    → All IsNumbered sinks
    → All (Ascends (build sinks name config)) (build sinks name config).job_edges
unfolding build
build-Ascends sinks name config n =
    let up = process_all-Up sinks _ n tt in
    let joins = build-Joins sinks name config (All-map sinks (λ s. numbered-NoUnion s) n) in
    In-All _ _ λ e i. record {
      order = All-In Up e _ up i;
      target = (All-In (Joins (build sinks name config)) e _ joins i).1;
    }

-- From streams that were numbered as they were made, builder and optimizer together always give an
-- optimized graph: `submit` and `execute` reach the job client.
pub submit-IsOptimized :
    (sinks : List Stream) (name : String) (config : Option (Dict String String))
    → All IsNumbered sinks
    → (out : JobGraph Runnable) × (optimize (build sinks name config) ≡ ok out) × IsOptimized out
submit-IsOptimized sinks name config n =
    optimize-IsOptimized (build sinks name config) (build-Ascends sinks name config n)
