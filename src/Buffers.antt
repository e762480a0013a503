-- ===== src/Buffers.antt =====
-- volga/streaming/runtime/network_deprecated/buffer: the buffers that the Python network sends, the
-- memory that they may take, and the queues of a writer.
pub mod Varint
pub mod Serializer
pub mod Tracker
pub mod Queues
mod Tests
