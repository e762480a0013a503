-- ===== src/Streams/Numbered.antt =====
-- The ids that the stream constructors of stream.py take from the context's counter, and what
-- StreamingContext.submit makes of the sinks.
use Prim.Native.String.{String}
use volga.Prelude.{
  ℕ, ◌+◌, ◌≤◌, ◌<◌, ◌≡◌, Option, List, [], ◌∷◌, arith, In, All, All-append, All-map, All-In, some,
  none,
}
use volga.JobGraph.{JobGraph}
use volga.Partition.{PartitionClass, key}
use volga.JobGraph.Operator.{
  Runnable, OperatorClass, map_operator, flat_map_operator, filter_operator, key_by_operator,
  reduce_operator, multi_window_operator,
}
use volga.JobGraph.Builder.{
  Stream, stream_source, data_stream, join_stream, union_stream, stream_sink, attributes,
}
use volga.JobGraph.Builder.Ascending.{IsNumbered, submit-IsOptimized}
use volga.JobGraph.Optimizer.{ok}
use volga.JobGraph.Optimizer.Output.{IsOptimized}
use volga.Streams.{
  StreamingContext, new_context, derive, source, map_stream, flat_map, filter, key_by, reduce,
  multi_window_agg, join, sink, set_parallelism, compile,
}

-- The methods that make a stream from one stream.
pub data Method : Type 0 where
  map_method flat_map_method filter_method key_by_method reduce_method window_method : Method

unfoldable pub call : Method → Stream → StreamingContext → Stream × StreamingContext
call map_method = map_stream
call flat_map_method = flat_map
call filter_method = filter
call key_by_method = key_by
call reduce_method = reduce
call window_method = multi_window_agg

-- The programs that a user writes with these methods: the context, and the streams at hand.
pub data Program : StreamingContext → List Stream → Type 0 where
  begin : Program new_context []
  from_source :
      {c : StreamingContext} {ss : List Stream}
      → Program c ss
      → Program (source c).1 ((source c).0 ∷ ss)
  derive_from :
      {c : StreamingContext} {ss : List Stream} (m : Method) (s : Stream)
      → Program c ss
      → In s ss
      → Program (call m s c).1 ((call m s c).0 ∷ ss)
  join_with :
      {c : StreamingContext} {ss : List Stream} (left right : Stream)
      → Program c ss
      → In left ss
      → In right ss
      → Program (join left right c).1 ((join left right c).0 ∷ ss)
  sink_to :
      {c : StreamingContext} {ss : List Stream} (s : Stream)
      → Program c ss
      → In s ss
      → Program (sink s c).1 ((sink s c).0 ∷ ss)
  in_parallel :
      {c : StreamingContext} {ss : List Stream} (n : ℕ) (s : Stream)
      → Program c ss
      → In s ss
      → Program c (set_parallelism n s ∷ ss)

-- A stream that was made in this context before now.
record IsKnown (c : StreamingContext) (s : Stream) : Type 0 where
  numbered : IsNumbered s
  made : (attributes s).id ≤ c.id_generator

record IsSound (c : StreamingContext) (ss : List Stream) : Type 0 where
  known : All (IsKnown c) ss
  sinks : All IsNumbered c.stream_sinks

IsKnown-mono :
    (c d : StreamingContext) (ss : List Stream)
    → c.id_generator ≤ d.id_generator
    → All (IsKnown c) ss
    → All (IsKnown d) ss
IsKnown-mono c d ss le known =
    All-map ss (λ s k. record { numbered = k.numbered; made = omega (arith, k.made) }) known

-- One more stream, made from one at hand, with the next id.
derive-IsSound :
    (class : OperatorClass) (partition : Option PartitionClass) (s : Stream) (c : StreamingContext)
    (ss : List Stream)
    → IsSound c ss
    → In s ss
    → IsSound (derive class partition s c).1 ((derive class partition s c).0 ∷ ss)
derive-IsSound class partition s c ss h i =
    let k = All-In (IsKnown c) s ss h.known i in
    record {
      known = (
        record { numbered = (omega (arith, k.made), k.numbered); made = omega arith },
        IsKnown-mono c _ ss (omega arith) h.known,
      );
      sinks = h.sinks;
    }

call-IsSound :
    (m : Method) (s : Stream) (c : StreamingContext) (ss : List Stream)
    → IsSound c ss
    → In s ss
    → IsSound (call m s c).1 ((call m s c).0 ∷ ss)
unfolding call map_stream flat_map filter key_by reduce multi_window_agg
call-IsSound key_by_method s c ss h i = derive-IsSound key_by_operator (some key) s c ss h i
call-IsSound map_method s c ss h i = derive-IsSound map_operator none s c ss h i
call-IsSound flat_map_method s c ss h i = derive-IsSound flat_map_operator none s c ss h i
call-IsSound filter_method s c ss h i = derive-IsSound filter_operator none s c ss h i
call-IsSound reduce_method s c ss h i = derive-IsSound reduce_operator none s c ss h i
call-IsSound window_method s c ss h i = derive-IsSound multi_window_operator none s c ss h i

set_parallelism-IsKnown :
    (n : ℕ) (s : Stream) (c : StreamingContext) → IsKnown c s → IsKnown c (set_parallelism n s)
unfolding set_parallelism
set_parallelism-IsKnown n (stream_source a) c k = record { numbered = tt; made = k.made }
set_parallelism-IsKnown n (data_stream a input) c k = record {
  numbered = k.numbered;
  made = k.made;
}
set_parallelism-IsKnown n (join_stream a input right) c k = record {
  numbered = k.numbered;
  made = k.made;
}
set_parallelism-IsKnown n (union_stream a input others) c k = absurd k.numbered
set_parallelism-IsKnown n (stream_sink a input) c k = record {
  numbered = k.numbered;
  made = k.made;
}

Program-IsSound : {c : StreamingContext} {ss : List Stream} → Program c ss → IsSound c ss
unfolding source join sink
Program-IsSound begin = record { known = tt; sinks = tt }
Program-IsSound (from_source {c} {ss} p) =
    let h = Program-IsSound p in
    record {
      known =
          (record { numbered = tt; made = omega arith }, IsKnown-mono c _ ss (omega arith) h.known);
      sinks = h.sinks;
    }
Program-IsSound (derive_from m s p i) = call-IsSound m s _ _ (Program-IsSound p) i
Program-IsSound (join_with {c} {ss} left right p i j) =
    let h = Program-IsSound p in
    let l = All-In (IsKnown c) left ss h.known i in
    let r = All-In (IsKnown c) right ss h.known j in
    record {
      known = (
        record {
          numbered = (omega (arith, l.made), omega (arith, r.made), l.numbered, r.numbered);
          made = omega arith;
        },
        IsKnown-mono c _ ss (omega arith) h.known,
      );
      sinks = h.sinks;
    }
Program-IsSound (sink_to {c} {ss} s p i) =
    let h = Program-IsSound p in
    let k = All-In (IsKnown c) s ss h.known i in
    let up : (attributes s).id < c.id_generator + 1 = omega (arith, k.made) in
    record {
      known = (
        record { numbered = (up, k.numbered); made = omega arith },
        IsKnown-mono c _ ss (omega arith) h.known,
      );
      sinks = All-append IsNumbered c.stream_sinks _ h.sinks ((up, k.numbered), tt);
    }
Program-IsSound (in_parallel {c} {ss} n s p i) =
    let h = Program-IsSound p in
    record {
      known = (set_parallelism-IsKnown n s c (All-In (IsKnown c) s ss h.known i), h.known);
      sinks = h.sinks;
    }

pub Program-submits :
    {c : StreamingContext} {ss : List Stream} (name : String)
    → Program c ss
    → (out : JobGraph Runnable) × (compile name c ≡ ok out) × IsOptimized out
unfolding compile
Program-submits {c} name p = submit-IsOptimized c.stream_sinks name none (Program-IsSound p).sinks
