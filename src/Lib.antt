-- ===== src/Lib.antt =====
-- Volga is a streaming engine in Python. A program makes streams in a StreamingContext; `submit`
-- walks them from the sinks into a job graph of operators, the optimizer groups operators into chains,
-- and the master makes an execution graph with one vertex for each parallel instance. Workers give
-- records to operators, partitions choose the channel of a record, and the master gathers statistics.
--
-- The files and the code that they model, by path below volga/:
-- - Partition: streaming/api/partition/partition.py. A partition object is a value of `Partition`,
--   and `partition` returns the channels and the object afterwards.
-- - Streams: streaming/api/stream and the id counter and sinks of
--   streaming/api/context/streaming_context.py. A method takes the context and returns it.
-- - JobGraph: streaming/api/job_graph/job_graph.py. JobGraph/Operator: operator objects as the graph
--   sees them. JobGraph/Builder: job_graph_builder.py. JobGraph/Optimizer: job_graph_optimizer.py.
-- - ExecutionGraph: streaming/runtime/core/execution_graph/execution_graph.py.
-- - Operators: streaming/api/operators/operators.py and chained.py, with Operators/Join for the join
--   and the two-input processor, and Operators/Message for streaming/api/message/message.py.
-- - Windows: streaming/api/operators/window_operator.py, with aggregate_function.py and
--   window_function.py of streaming/api/function. Sources: the context of SourceOperator, and
--   streaming/runtime/sources/source_splits_manager.py.
-- - Storage: storage/common/key_index.py and the sorted lists of a key. Storage/Cache: the queries and
--   the sinks of storage/common/simple_in_memory_actor_storage.py.
-- - Buffers, by path below streaming/runtime/network_deprecated/buffer: Buffers/Varint for
--   serialization/varint.py, Buffers/Serializer for serialization/buffer_serializer.py and
--   byte_utils.py, Buffers/Tracker for buffer_memory_tracker.py, and Buffers/Queues for
--   buffer_queues.py with buffering_policy.py. A tracker and a channel's queue are records that each
--   method returns anew.
-- - Transfer: the two ends of a channel in streaming/runtime/network_deprecated/transfer/local. A
--   writer (Transfer/Writer) has a queue of Buffers and the buffers in flight; a reader
--   (Transfer/Reader) puts what comes in order and acknowledges it.
-- - Resources: streaming/runtime/master/resource_manager, the nodes and both placing strategies.
-- - Writers/Collector: streaming/runtime/core/collector/output_collector.py. Writers/Batches: the
--   batches of streaming/runtime/network/local/data_writer.py.
-- - Dataset: api/dataset/schema.py and api/dataset/operators.py, with Dataset/Join and
--   Dataset/Aggregate for those two operators.
-- - Ports: gen_port of streaming/runtime/master/worker_lifecycle_controller.py.
-- - Stats/Hist: streaming/runtime/master/stats/hist.py. Stats/Worker and Stats/Job: stats_manager.py.
-- - Prelude: tests on numbers and strings, lists, dicts as association lists in insertion order,
--   integers, sorted lists, and results that may raise.
--
-- Numbers are natural numbers, and integers where the code can go below 0. Times are whole
-- milliseconds, seconds or decimals scaled to naturals. The functions of the user, the hash of a key, the
-- readings of the clock, the split enumerators, the arithmetic of decimals, the order of stored
-- values, the answers of sockets and of the Rust writer, the JSON of a message, the parser of times
-- and the resources of a vertex are parameters. A channel id in a buffer is a list of ASCII codes.
--
-- The recursion of the optimizer has fuel, one more than the greatest vertex id: ids ascend along
-- the edges of a graph that is built from streams, so no path is longer. The depth of a chained
-- operator's calls is the number of its operators. A binary search has fuel for the length of its
-- list. Each of these is proved enough. An integer is encoded by recursion on the order of numbers.
-- The reader puts stored buffers in order in as many rounds as there are stored ones, since each
-- round is for another; the messages of a buffer are read in at most as many rounds as its payload
-- has bytes. The attempts of the output collector have fuel, and how much is enough depends on the
-- writer's patience. All other loops are structural.
--
-- Not modelled: ray actors, threads and sockets, the Rust network, the connectors, the decorators of
-- the dataset interface, statistics of the network, and what only prints. A call that raises has no
-- state afterwards, except where the state it leaves is what matters (the lock of a worker's latency
-- statistics).
pub mod Prelude
pub mod Partition
pub mod JobGraph
pub mod Streams
pub mod ExecutionGraph
pub mod Stats
pub mod Operators
pub mod Windows
pub mod Sources
pub mod Storage
pub mod Ports
pub mod Buffers
pub mod Transfer
pub mod Resources
pub mod Writers
pub mod Dataset
