-- ===== src/Streams/Tests.antt =====
-- A program with two sources, a join and a sink, and what it compiles to.
use volga.Prelude.{◌≡◌, refl, [], ◌∷◌, inl, inr}
use volga.JobGraph.{JobGraph}
use volga.JobGraph.Operator.{Runnable}
use volga.JobGraph.Builder.{Stream}
use volga.JobGraph.Optimizer.{ok}
use volga.JobGraph.Optimizer.Output.{IsOptimized}
use volga.Streams.{compile, StreamingContext, new_context, source, join, sink}
use volga.Streams.Numbered.{Program, begin, from_source, join_with, sink_to, Program-submits}

abbrev orders : Stream × StreamingContext
orders = source new_context

abbrev users : Stream × StreamingContext
users = source orders.1

abbrev joined : Stream × StreamingContext
joined = join orders.0 users.0 users.1

abbrev written : Stream × StreamingContext
written = sink joined.0 joined.1

two_sources-Program : Program written.1 (written.0 ∷ joined.0 ∷ users.0 ∷ orders.0 ∷ [])
two_sources-Program =
    sink_to joined.0
      (join_with orders.0 users.0 (from_source (from_source begin)) (inr (inl refl)) (inl refl))
      (inl refl)

Program-submits_example :
    (out : JobGraph Runnable) × (compile "job" written.1 ≡ ok out) × IsOptimized out
Program-submits_example = Program-submits "job" two_sources-Program
