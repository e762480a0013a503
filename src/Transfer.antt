-- ===== src/Transfer.antt =====
-- volga/streaming/runtime/network_deprecated/transfer/local: the two ends of a channel.
pub mod Reader
pub mod Writer
mod Tests
