-- ===== src/Writers.antt =====
-- What an operator's output goes through: the collector and the batches of the writer.
pub mod Collector
pub mod Batches
mod Tests
